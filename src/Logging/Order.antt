-- ===== src/Logging/Order.antt =====
-- logging.go: the fields of a message do not depend on the order in which Go goes through a map.
use zygote.Common.{
  true, false, List, [], ◌∷◌, ◌++◌, if◌then◌else◌, Bytes, ◌≡◌, refl, arith, ap, ◌∙◌, Bool-cases,
  inl, inr,
}
use zygote.Strings.{bytes_eq}
use zygote.Strings.Split.{eq_of_bytes_eq, bytes_eq_refl}
use zygote.Logging.{
  Args, Value, Call, less, insert_key, sort_keys, keys, value_at, fields_of, add_fields,
  field_calls,
}

-- Two orders of the entries of one map: neighbours with different keys are exchanged.
pub data Reordered : Args → Args → Type 0 where
  same : (args : Args) → Reordered args args
  under : {a b : Args} (e : Bytes × Value) → Reordered a b → Reordered (e ∷ a) (e ∷ b)
  exchange :
      (k j : Bytes) (v u : Value) (args : Args)
      → bytes_eq k j ≡ false
      → Reordered ((k, v) ∷ (j, u) ∷ args) ((j, u) ∷ (k, v) ∷ args)
  then_also : {a b c : Args} → Reordered a b → Reordered b c → Reordered a c

less_asym : (a b : Bytes) → less a b ≡ true → less b a ≡ false
unfolding less
less_asym [] [] h = cc
less_asym [] (y ∷ b) h = refl
less_asym (x ∷ a) [] h = cc
less_asym (x ∷ a) (y ∷ b) h = ground (arith, less_asym a b)

less_total : (a b : Bytes) → less a b ≡ false → less b a ≡ false → a ≡ b
unfolding less
less_total [] [] h g = refl
less_total [] (y ∷ b) h g = cc
less_total (x ∷ a) [] h g = cc
less_total (x ∷ a) (y ∷ b) h g = ground (arith, less_total a b)

less_trans : (a b c : Bytes) → less a b ≡ true → less b c ≡ true → less a c ≡ true
unfolding less
less_trans [] [] [] h g = cc
less_trans [] (y ∷ b) [] h g = cc
less_trans [] b (z ∷ c) h g = refl
less_trans (x ∷ a) [] c h g = cc
less_trans (x ∷ a) (y ∷ b) [] h g = cc
less_trans (x ∷ a) (y ∷ b) (z ∷ c) h g = ground (arith, less_trans a b c)

-- What is between two keys in one test is so in the other.
less_shift : (k i j : Bytes) → less i j ≡ true → less i k ≡ false → less k j ≡ true
less_shift k i j h g = elim (Bool-cases (less k i)) [
  | inl below ↦ less_trans k i j below h
  | inr level ↦ let e : i ≡ k = less_total i k g level in rw (← e) h
]

insert_key_comm :
    (k j : Bytes) (ks : List Bytes)
    → insert_key k (insert_key j ks) ≡ insert_key j (insert_key k ks)
unfolding insert_key
insert_key_comm k j [] = ground (arith, less_asym j k, less_total j k)
insert_key_comm k j (i ∷ ks) = ground (
  arith,
  insert_key_comm k j ks,
  less_asym j k,
  less_total j k,
  less_shift k i j,
  less_shift j i k,
)

other_key : (q k j : Bytes) → k ≡ q → bytes_eq k j ≡ false → bytes_eq j q ≡ false
other_key q k j e off = elim (Bool-cases (bytes_eq j q)) [
  | inr miss ↦ miss
  | inl hit ↦ cc (eq_of_bytes_eq j q hit, bytes_eq_refl k)
]

value_at_exchange :
    (q k j : Bytes) (v u : Value) (args : Args)
    → bytes_eq k j ≡ false
    → value_at q ((k, v) ∷ (j, u) ∷ args) ≡ value_at q ((j, u) ∷ (k, v) ∷ args)
unfolding value_at
value_at_exchange q k j v u args off = elim (Bool-cases (bytes_eq k q)) [
  | inl hit ↦
      let e : k ≡ q = eq_of_bytes_eq k q hit in
      let miss : bytes_eq j q ≡ false = other_key q k j e off in rw (hit, miss)
  | inr miss ↦ rw miss
]

sort_keys-Reordered : {a b : Args} → Reordered a b → sort_keys (keys a) ≡ sort_keys (keys b)
unfolding sort_keys keys
sort_keys-Reordered (same args) = refl
sort_keys-Reordered (under (k, v) r) = ap (insert_key k) (sort_keys-Reordered r)
sort_keys-Reordered (exchange k j v u args off) = insert_key_comm k j (sort_keys (keys args))
sort_keys-Reordered (then_also r s) = sort_keys-Reordered r ∙ sort_keys-Reordered s

value_at-Reordered : (q : Bytes) {a b : Args} → Reordered a b → value_at q a ≡ value_at q b
unfolding value_at
value_at-Reordered q (same args) = refl
value_at-Reordered q (under (k, v) r) =
    ap (λ w. if bytes_eq k q then v else w) (value_at-Reordered q r)
value_at-Reordered q (exchange k j v u args off) = value_at_exchange q k j v u args off
value_at-Reordered q (then_also r s) = value_at-Reordered q r ∙ value_at-Reordered q s

fields_of-Reordered :
    (ks : List Bytes) {a b : Args} → Reordered a b → fields_of ks a ≡ fields_of ks b
unfolding fields_of
fields_of-Reordered [] r = refl
fields_of-Reordered (k ∷ ks) {a = a} {b = b} r =
    ap (λ v. field_calls k v ++ fields_of ks a) (value_at-Reordered k r)
    ∙ ap (λ l. field_calls k (value_at k b) ++ l) (fields_of-Reordered ks r)

-- The fields that are added to a message, and their order, are the same for any two orders in which
-- Go goes through the entries of a map.
pub add_fields-Reordered :
    (event : List Call) {a b : Args} → Reordered a b → add_fields event a ≡ add_fields event b
unfolding add_fields
add_fields-Reordered event {a = a} {b = b} r =
    ap (λ l. event ++ l)
      (ap (λ ks. fields_of ks a) (sort_keys-Reordered r)
        ∙ fields_of-Reordered (sort_keys (keys b)) r)
