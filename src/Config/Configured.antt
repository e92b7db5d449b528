-- ===== src/Config/Configured.antt =====
-- What configuredRPIDs returns, and when it is an error.
use blueripple_passkey.Prelude.{
  ◌<◌, ◌≡◌, ◌↔◌, ◌⊎◌, inl, inr, true, false, none, some, List, [], ◌∷◌, Bytes, length, arith,
  Option-cases, WhereSome, Bool-cases, bytes_eq, bytes_eq_iff,
}
use blueripple_passkey.Prelude.Dict
use blueripple_passkey.Prelude.Dict.{Dict}
use blueripple_passkey.Config.{
  normalised, valid_rp_id, collect, keys, values_of, sort_strings, configured_rp_ids,
}
use blueripple_passkey.Config.Order.{
  NotIn, Apart, IsIn, Ascending, sort_strings-Ascending, sort_strings-IsIn,
}

-- One of the values names the site, once blanks and capitals are gone.
abbrev pub Named : Bytes → List Bytes → Type 0
Named rp [] = ⊥
Named rp (raw ∷ values) = ((normalised raw ≡ rp) × (0 < length rp)) ⊎ Named rp values

-- One of the values is neither blank nor a valid name.
abbrev pub Bad : List Bytes → Type 0
Bad [] = ⊥
Bad (raw ∷ values) =
    ((0 < length (normalised raw)) × (valid_rp_id (normalised raw) ≡ false)) ⊎ Bad values

insert-NotIn :
    (a b : Bytes) (m : Dict (Unit {0}))
    → bytes_eq b a ≡ false
    → NotIn a (keys m)
    → NotIn a (keys (Dict.insert b tt m))
unfolding Dict.insert
insert-NotIn a b [] h k = (h, tt)
insert-NotIn a b ((j, w) ∷ m) h k = ground (arith, insert-NotIn a b m)

insert-Apart :
    (b : Bytes) (m : Dict (Unit {0})) → Apart (keys m) → Apart (keys (Dict.insert b tt m))
unfolding Dict.insert
insert-Apart b [] h = (tt, tt)
insert-Apart b ((j, w) ∷ m) h =
    ground (arith, insert-Apart b m, insert-NotIn j b m, bytes_eq_iff j b, bytes_eq_iff b j)

insert-IsIn :
    (a b : Bytes) (m : Dict (Unit {0}))
    → IsIn a (keys (Dict.insert b tt m)) ↔ ((b ≡ a) ⊎ IsIn a (keys m))
unfolding Dict.insert
insert-IsIn a b [] = ground arith
insert-IsIn a b ((j, w) ∷ m) = ground (arith, insert-IsIn a b m, bytes_eq_iff j b)

collect-Apart :
    (seen out : Dict (Unit {0})) (values : List Bytes)
    → Apart (keys seen)
    → collect seen values ≡ some out
    → Apart (keys out)
unfolding collect
collect-Apart seen out [] h e = ground arith
collect-Apart seen out (raw ∷ values) h e =
    let rp = normalised raw in
    ground (
      arith,
      insert-Apart rp seen,
      collect-Apart seen out values,
      collect-Apart (Dict.insert rp tt seen) out values,
    )

collect-IsIn :
    (seen out : Dict (Unit {0})) (values : List Bytes) (a : Bytes)
    → collect seen values ≡ some out
    → IsIn a (keys out) ↔ (IsIn a (keys seen) ⊎ Named a values)
unfolding collect
collect-IsIn seen out [] a e = ground arith
collect-IsIn seen out (raw ∷ values) a e =
    let rp = normalised raw in
    ground (
      arith,
      insert-IsIn a rp seen,
      collect-IsIn seen out values a,
      collect-IsIn (Dict.insert rp tt seen) out values a,
    )

collect-none :
    (seen : Dict (Unit {0})) (values : List Bytes) → (collect seen values ≡ none) ↔ Bad values
unfolding collect
collect-none seen [] = ground arith
collect-none seen (raw ∷ values) =
    ground
      (arith, collect-none seen values, collect-none (Dict.insert (normalised raw) tt seen) values)

valid-Named :
    (rp : Bytes) (values : List Bytes) → ¬ Bad values → Named rp values → valid_rp_id rp ≡ true
valid-Named rp [] h n = absurd n
valid-Named rp (raw ∷ values) h (inr n) = valid-Named rp values (λ b. h (inr b)) n
valid-Named rp (raw ∷ values) h (inl (e, l)) = elim (Bool-cases (valid_rp_id rp)) [
  | inl v ↦ v
  | inr v ↦ absurd (h (inl (rw e l, rw e v)))
]

sorted_keys :
    (seen : Dict (Unit {0})) (values : List Bytes) (rp : Bytes)
    → collect [] values ≡ some seen
    → Ascending (sort_strings (keys seen))
      × (IsIn rp (sort_strings (keys seen)) ↔ (Named rp values × (valid_rp_id rp ≡ true)))
sorted_keys seen values rp e =
    let fine : ¬ Bad values = λ b. cc ((collect-none [] values).1 b) in
    (
      sort_strings-Ascending (keys seen) (collect-Apart [] seen values tt e),
      ground (
        arith,
        sort_strings-IsIn rp (keys seen),
        collect-IsIn [] seen values rp e,
        valid-Named rp values fine,
      ),
    )

-- The site names that a list holds, without regard to order: of a configuration that is not an
-- error, the ones that a value gives, and all of them valid.
abbrev pub IsSetOf : List Bytes → Bytes → List Bytes → Type 0
IsSetOf values rp ids = Ascending ids × (IsIn rp ids ↔ (Named rp values × (valid_rp_id rp ≡ true)))

-- The configuration is an error exactly where some value is neither blank nor, without blanks and
-- capitals, a valid name. Otherwise the result is in ascending order, no name standing twice, and
-- holds a name exactly where some value gives it, all names being valid.
pub configured_rp_ids_cases :
    (flags : List Bytes) (environment rp : Bytes)
    → ((configured_rp_ids flags environment ≡ none) ↔ Bad (values_of flags environment))
      × WhereSome (IsSetOf (values_of flags environment) rp) (configured_rp_ids flags environment)
unfolding configured_rp_ids
configured_rp_ids_cases flags environment rp =
    let values = values_of flags environment in
    elim (Option-cases (collect [] values)) [
      | inl e ↦ rw (e, configured_rp_ids) (ground (arith, collect-none [] values), tt)
      | inr (seen, e) ↦
          rw (e, configured_rp_ids)
            (ground (arith, collect-none [] values), sorted_keys seen values rp e)
    ]
