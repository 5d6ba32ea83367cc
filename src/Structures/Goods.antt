-- ===== src/Structures/Goods.antt =====
-- Items, stored items and orders of libserver/network/command/proto/CommonStructureDefinitions.
-- An enumeration is an integer of its width.
use alicia_server.Common.{Bool}
use alicia_server.Stream.{Put, Get, ◌>>◌, ◌>>=◌, pure}
use alicia_server.Stream.Words.{
  U8, U16, U32, write_word, read_u8, read_u16, read_u32, write_bool, read_bool,
}
use alicia_server.Stream.Strings.{String, Locale, write_string, read_string}
use alicia_server.Stream.Codes.{Codes, chain, ending}
use alicia_server.Stream.Fields.{word, bool}
use alicia_server.Stream.Text.{Transcodes, text}

pub record Item : Type 0 where
  pub uid : U32
  pub tid : U32
  pub expires_at : U32
  pub count : U32

unfoldable pub write_item : Item → Put
write_item v = write_word v.uid >> write_word v.tid >> write_word v.expires_at >> write_word v.count

unfoldable pub read_item : Get Item
read_item = do
  uid ← read_u32
  tid ← read_u32
  expires_at ← read_u32
  count ← read_u32
  pure (record { uid = uid; tid = tid; expires_at = expires_at; count = count })

pub item_codes : (v : Item) → Codes (write_item v) (read_item) v
unfolding write_item read_item
item_codes v =
    chain _ (word v.uid)
      (chain _ (word v.tid) (chain _ (word v.expires_at) (ending _ (word v.count))))

pub record StoredItem : Type 0 where
  pub uid : U32
  pub goods_sq : U32
  pub status : U8
  pub val3 : U32
  pub val4 : U32
  pub carrots : U32
  pub price_id : U32
  pub sender : String
  pub message : String
  pub date_and_time : U32

module _ (locale : Locale) where
  unfoldable pub write_stored_item : StoredItem → Put
  write_stored_item v =
      write_word v.uid
      >> write_word v.goods_sq
      >> write_word v.status
      >> write_word v.val3
      >> write_word v.val4
      >> write_word v.carrots
      >> write_word v.price_id
      >> write_string locale v.sender
      >> write_string locale v.message
      >> write_word v.date_and_time

  unfoldable pub read_stored_item : Get StoredItem
  read_stored_item = do
    uid ← read_u32
    goods_sq ← read_u32
    status ← read_u8
    val3 ← read_u32
    val4 ← read_u32
    carrots ← read_u32
    price_id ← read_u32
    sender ← read_string locale
    message ← read_string locale
    date_and_time ← read_u32
    pure (record {
      uid = uid;
      goods_sq = goods_sq;
      status = status;
      val3 = val3;
      val4 = val4;
      carrots = carrots;
      price_id = price_id;
      sender = sender;
      message = message;
      date_and_time = date_and_time;
    })

  pub stored_item_codes :
      (v : StoredItem)
      → Transcodes locale v.sender
      → Transcodes locale v.message
      → Codes (write_stored_item v) (read_stored_item) v
  unfolding write_stored_item read_stored_item
  stored_item_codes v h0 h1 = chain _ (word v.uid) (
      chain _ (word v.goods_sq) (
        chain _ (word v.status) (
          chain _ (word v.val3) (
            chain _ (word v.val4) (
              chain _ (word v.carrots) (
                chain _ (word v.price_id) (
                  chain _ (text locale v.sender h0)
                    (chain _ (text locale v.message h1) (ending _ (word v.date_and_time))))))))))

pub record ShopOrder : Type 0 where
  pub goods_sq : U32
  pub equip_immediately : Bool
  pub price_id : U16

unfoldable pub write_shop_order : ShopOrder → Put
write_shop_order v =
    write_word v.goods_sq >> write_bool v.equip_immediately >> write_word v.price_id

unfoldable pub read_shop_order : Get ShopOrder
read_shop_order = do
  goods_sq ← read_u32
  equip_immediately ← read_bool
  price_id ← read_u16
  pure (record { goods_sq = goods_sq; equip_immediately = equip_immediately; price_id = price_id })

pub shop_order_codes : (v : ShopOrder) → Codes (write_shop_order v) (read_shop_order) v
unfolding write_shop_order read_shop_order
shop_order_codes v =
    chain _ (word v.goods_sq) (chain _ (bool v.equip_immediately) (ending _ (word v.price_id)))
