-- ===== src/Auth/Random/Ids.antt =====
-- The ids that random bytes give.
use spot_price.Prelude.{
  ℕ, ◌+◌, ◌%◌, ◌≤◌, ◌<◌, min, Bool, true, some, List, [], ◌∷◌, ◌++◌, All, length, length-append,
  filter, ltb, leb, ◌&&◌, ◌||◌, ◌≡◌, refl, arith, inl, inr, Bool-cases, subst, some-injective,
}
use spot_price.Prelude.Text.{Text}
use spot_price.Auth.Random.{
  id_length, accept_below, id_character, push_bytes, id_from, better_auth_id,
}

-- `char::is_ascii_alphanumeric`.
abbrev pub is_alphanumeric : ℕ → Bool
is_alphanumeric c =
    (leb b'a' c && leb c b'z') || (leb b'A' c && leb c b'Z') || (leb b'0' c && leb c b'9')

-- The bytes that are not skipped.
abbrev pub accepted : List ℕ → ℕ
accepted bytes = length (filter (λ byte. ltb byte accept_below) bytes)

abbrev pub accepted_all : List (List ℕ) → ℕ
accepted_all [] = 0
accepted_all (draw ∷ draws) = accepted draw + accepted_all draws

abbrev pub IsId : Text → Type 0
IsId id = (length id ≤ id_length) × All (λ c. is_alphanumeric c ≡ true) id

id_character-alphanumeric : (n : ℕ) → is_alphanumeric (id_character (n % 62)) ≡ true
id_character-alphanumeric n = ground arith

IsId-push :
    (id : Text) (n : ℕ)
    → IsId id
    → length id < id_length
    → IsId (id ++ (id_character (n % 62) ∷ []))
IsId-push id n (l, h) room =
    (omega (arith, length-append id (id_character (n % 62) ∷ []), room), snoc id h)
  where
    snoc :
        (xs : Text)
        → All (λ c. is_alphanumeric c ≡ true) xs
        → All (λ c. is_alphanumeric c ≡ true) (xs ++ (id_character (n % 62) ∷ []))
    snoc [] h = (id_character-alphanumeric n, tt)
    snoc (x ∷ xs) (p, h) = (p, snoc xs h)

-- A draw keeps an id, and adds its accepted bytes up to the length of an id.
push_bytes_lem :
    (draw : List ℕ) (id : Text)
    → IsId id
    → IsId (push_bytes draw id)
      × (length (push_bytes draw id) ≡ min id_length (length id + accepted draw))
push_bytes_lem [] id (l, h) = ((l, h), omega (arith, l))
push_bytes_lem (byte ∷ bytes) id (l, h) = elim (Bool-cases (ltb byte accept_below)) [
  | inl e ↦ elim (Bool-cases (ltb (length id) id_length)) [
    | inl f ↦
        let room : length id < id_length = ground (arith, f) in
        let longer = id ++ (id_character (byte % 62) ∷ []) in
        let (is_id, long) = push_bytes_lem bytes longer (IsId-push id byte (l, h) room) in
        let grown = length-append id (id_character (byte % 62) ∷ []) in
        rw e (rw f (is_id, omega (arith, long, grown)))
    | inr f ↦
        let full : id_length ≤ length id = ground (arith, f) in
        let (is_id, long) = push_bytes_lem bytes id (l, h) in
        rw e (rw f (is_id, omega (arith, long, full, l)))
  ]
  | inr e ↦ rw e (push_bytes_lem bytes id (l, h))
]

id_from_lem :
    (draws : List (List ℕ)) (id : Text)
    → IsId id
    → ((made : Text) → id_from draws id ≡ some made → (length made ≡ id_length) × IsId made)
      × (id_length ≤ length id + accepted_all draws
          → (made : Text) × (id_from draws id ≡ some made))
id_from_lem [] id (l, h) = elim (Bool-cases (ltb (length id) id_length)) [
  | inl e ↦ rw e ((λ made k. ground (arith, k)), (λ k. ground (arith, k, e)))
  | inr e ↦
      let long : length id ≡ id_length = ground (arith, e, l) in
      rw e (
        (λ made k.
            subst (λ m. (length m ≡ id_length) × IsId m) (some-injective id made k) (long, (l, h))),
        (λ k. (id, refl)),
      )
]
id_from_lem (draw ∷ draws) id (l, h) = elim (Bool-cases (ltb (length id) id_length)) [
  | inl e ↦
      let (is_id, long) = push_bytes_lem draw id (l, h) in
      let (made, enough) = id_from_lem draws (push_bytes draw id) is_id in
      rw e (made, λ k. enough (omega (arith, k, long, l)))
  | inr e ↦
      let long : length id ≡ id_length = ground (arith, e, l) in
      rw e (
        (λ made k.
            subst (λ m. (length m ≡ id_length) × IsId m) (some-injective id made k) (long, (l, h))),
        (λ k. (id, refl)),
      )
]

-- An id has 32 letters and digits, and it is made as soon as the draws have 32 bytes below 248.
pub better_auth_id-IsId :
    (draws : List (List ℕ))
    → ((id : Text) → better_auth_id draws ≡ some id → (length id ≡ id_length) × IsId id)
      × (id_length ≤ accepted_all draws → (id : Text) × (better_auth_id draws ≡ some id))
unfolding better_auth_id
better_auth_id-IsId draws =
    let (made, enough) = id_from_lem draws [] (omega arith, tt) in
    (made, λ k. enough (omega (arith, k)))
