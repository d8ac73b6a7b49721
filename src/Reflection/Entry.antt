-- ===== src/Reflection/Entry.antt =====
-- `ReflectionLogEntry` of python/memory.py. New ids, the time and `str` of what is no text are
-- parameters.
use mc_bot_egent_practice.Prelude.{
  not, ◌&&◌, ◌||◌, Bool, true, arith, ◌≡◌, refl, String, false, str_eq, eq_iff, if◌then◌else◌,
}
use mc_bot_egent_practice.Python.{
  Items, list, task, Value, Fields, text, dict, field, end, truth, get,
}

pub record ReflectionLogEntry : Type 0 where
  pub id : String
  pub task_signature : String
  pub failed_step : String
  pub failure_reason : String
  pub improvement : String
  pub retry_result : String
  pub created_at : String
  pub updated_at : String
  pub metadata : Fields

unfoldable pub to_dict : ReflectionLogEntry → Fields
to_dict e = field "id" (text e.id) (
    field "task_signature" (text e.task_signature) (
      field "failed_step" (text e.failed_step) (
        field "failure_reason" (text e.failure_reason) (
          field "improvement" (text e.improvement) (
            field "retry_result" (text e.retry_result) (
              field "created_at" (text e.created_at) (
                field "updated_at" (text e.updated_at)
                  (field "metadata" (dict e.metadata) end))))))))

-- What from_dict takes from outside: a new id, the time, and `str` of a value that is no text.
pub record World : Type 0 where
  pub fresh_id : String
  pub now : String
  pub str : Value → String

abbrev pub str_of : World → Value → String
str_of w (text s) = s
str_of w v = w.str v

-- str(payload.get(key) or default)
unfoldable pub text_or : World → String → String → Fields → String
text_or w default key payload =
    let value = get key payload in if truth value then str_of w value else default

-- `metadata if isinstance(metadata, dict) else {}`
unfoldable pub meta_dict : Value → Fields
meta_dict (dict fs) = fs
meta_dict _ = end

unfoldable pub from_dict : World → Fields → ReflectionLogEntry
unfolding text_or meta_dict
from_dict w payload = record {
  id = text_or w w.fresh_id "id" payload;
  task_signature = text_or w "" "task_signature" payload;
  failed_step = text_or w "" "failed_step" payload;
  failure_reason = text_or w "" "failure_reason" payload;
  improvement = text_or w "" "improvement" payload;
  retry_result = text_or w "pending" "retry_result" payload;
  created_at = text_or w w.now "created_at" payload;
  updated_at = text_or w w.now "updated_at" payload;
  metadata = meta_dict (get "metadata" payload);
}

abbrev has_key : String → Fields → Bool
has_key k end = false
has_key k (field j v fs) = str_eq k j || has_key k fs

-- What JSON can say: no object of the program's own stands in the value, and no dict has a key
-- twice.
unfoldable mutual
  pub is_plain : Value → Bool
  is_plain (task t) = false
  is_plain (list items) = are_plain items
  is_plain (dict fs) = has_plain_fields fs
  is_plain _ = true

  pub are_plain : Items → Bool
  are_plain Items.nil = true
  are_plain (Items.cons v items) = is_plain v && are_plain items

  pub has_plain_fields : Fields → Bool
  has_plain_fields end = true
  has_plain_fields (field k v fs) = not (has_key k fs) && is_plain v && has_plain_fields fs

-- The texts that have a default other than "" are not empty, and JSON can say the metadata.
abbrev pub IsComplete : ReflectionLogEntry → Type 0
IsComplete e =
    (str_eq e.id "" ≡ false)
    × (str_eq e.retry_result "" ≡ false)
    × (str_eq e.created_at "" ≡ false)
    × (str_eq e.updated_at "" ≡ false)
    × (has_plain_fields e.metadata ≡ true)

pub to_dict-plain : (e : ReflectionLogEntry) → IsComplete e → has_plain_fields (to_dict e) ≡ true
unfolding to_dict is_plain has_plain_fields
to_dict-plain e (i, r, c, u, plain) = rw plain refl

or_empty : (s : String) → (if truth (text s) then s else "") ≡ s
unfolding truth
or_empty s = ground (arith, eq_iff s "")

-- An entry comes back from its own dict.
pub from_dict-to_dict :
    (w : World) (e : ReflectionLogEntry) → IsComplete e → from_dict w (to_dict e) ≡ e
unfolding from_dict to_dict text_or meta_dict get truth
from_dict-to_dict w e (i, r, c, u, plain) =
    rw
      (
        i,
        r,
        c,
        u,
        or_empty e.task_signature,
        or_empty e.failed_step,
        or_empty e.failure_reason,
        or_empty e.improvement,
      )
      refl
