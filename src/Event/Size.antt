-- ===== src/Event/Size.antt =====
-- The number of bytes of the JSON that internal/event and internal/eventlog write with encoding/json. A time is
-- written in UTC, in the layout RFC3339Nano.
use vulos_mail.Common.{ℕ, zero, suc, ◌+◌, ◌-◌, ◌/◌, ◌%◌, Bool, eqb, ltb, if◌then◌else◌}
use vulos_mail.Event.Utf8.{text_size}
use vulos_mail.Event.Codec.{
  Json, null, num, time, str, bool, arr, obj, Items, nil, cons, Fields, end, field,
}

-- the decimal digits, at most as many as the first argument, which is 20 for a number of 64 bits
unfoldable digits : ℕ → ℕ → ℕ
digits zero n = 0
digits (suc k) n = let rest = digits k (n / 10) in if ltb n 10 then 1 else 1 + rest

-- the zeros at the end of the nine digits of a fraction
unfoldable zeros : ℕ → ℕ → ℕ
zeros zero n = 0
zeros (suc k) n = let rest = zeros k (n / 10) in if eqb (n % 10) 0 then 1 + rest else 0

-- the quotes, the twenty characters of the seconds, and a fraction that is not zero
unfoldable time_size : ℕ → ℕ
unfolding zeros
time_size t = let n = t % 1000000000 in if eqb n 0 then 22 else 22 + (1 + (9 - zeros 9 n))

bool_size : Bool → ℕ
bool_size b = if b then 4 else 5

unfoldable mutual
  unfolding digits time_size bool_size text_size

  pub json_size : Json → ℕ
  json_size null = 4
  json_size (num n) = digits 20 n
  json_size (time t) = time_size t
  json_size (str s) = text_size s
  json_size (bool b) = bool_size b
  json_size (arr is) = 2 + items_size is
  json_size (obj fs) = 2 + fields_size fs

  -- with the commas between the items
  pub items_size : Items → ℕ
  items_size nil = 0
  items_size (cons j nil) = json_size j
  items_size (cons j (cons k is)) = json_size j + 1 + items_size (cons k is)

  pub fields_size : Fields → ℕ
  fields_size end = 0
  fields_size (field k v end) = text_size k + 1 + json_size v
  fields_size (field k v (field l w fs)) =
      text_size k + 1 + json_size v + 1 + fields_size (field l w fs)
