-- ===== src/Session/Rows.antt =====
-- The rows of the table by their hashes.
use spot_price.Prelude.{
  Bool, true, not, ◌&&◌, Option, none, some, List, [], ◌∷◌, find, filter, map, if◌then◌else◌, ◌≡◌,
  refl, sym, ap, ◌∙◌, arith, inl, inr, Bool-cases,
}
use spot_price.Prelude.Text.{Text, text_eq, text_eq_sound}
use spot_price.Session.{Row, has_hash, extend_row}

module _ {T : Type 0} where
  -- The row of a hash.
  abbrev pub lookup : Text → List (Row T) → Option (Row T)
  lookup hash rows = find (has_hash hash) rows

  -- The hashes are distinct, as in a primary key.
  abbrev pub IsKeyed : List (Row T) → Type 0
  IsKeyed [] = Unit
  IsKeyed (row ∷ rows) = (lookup row.token_hash rows ≡ none) × IsKeyed rows

  pub has_hash_sound :
      (hash : Text) (row : Row T) → has_hash hash row ≡ true → row.token_hash ≡ hash
  has_hash_sound hash row h = text_eq_sound row.token_hash hash h

  -- A filter removes rows only.
  lookup-filter-none :
      (p : Row T → Bool) (hash : Text) (rows : List (Row T))
      → lookup hash rows ≡ none
      → lookup hash (filter p rows) ≡ none
  lookup-filter-none p hash [] h = refl
  lookup-filter-none p hash (row ∷ rows) h = ground (arith, lookup-filter-none p hash rows)

  pub filter-IsKeyed :
      (p : Row T → Bool) (rows : List (Row T)) → IsKeyed rows → IsKeyed (filter p rows)
  filter-IsKeyed p [] h = tt
  filter-IsKeyed p (row ∷ rows) (new, h) = elim (Bool-cases (p row)) [
    | inl e ↦ rw e (lookup-filter-none p row.token_hash rows new, filter-IsKeyed p rows h)
    | inr e ↦ rw e (filter-IsKeyed p rows h)
  ]

  -- The row, if the test holds of it.
  abbrev pub kept : (Row T → Bool) → Option (Row T) → Option (Row T)
  kept p none = none
  kept p (some row) = if p row then some row else none

  kept-none : (p : Row T → Bool) (o : Option (Row T)) → o ≡ none → kept p o ≡ none
  kept-none p none h = refl
  kept-none p (some row) h = ground (arith, h)

  -- A hash that stands first does not come again.
  unmet :
      (hash : Text) (row : Row T) (rows : List (Row T))
      → lookup row.token_hash rows ≡ none
      → has_hash hash row ≡ true
      → lookup hash rows ≡ none
  unmet hash row rows new e = ap (λ k. lookup k rows) (sym (has_hash_sound hash row e)) ∙ new

  -- The row that passes a test is the row of the hash, if that passes.
  pub lookup-filter :
      (p : Row T → Bool) (hash : Text) (rows : List (Row T))
      → IsKeyed rows
      → lookup hash (filter p rows) ≡ kept p (lookup hash rows)
  lookup-filter p hash [] h = refl
  lookup-filter p hash (row ∷ rows) (new, h) =
      let rest = lookup-filter p hash rows h in
      elim (Bool-cases (has_hash hash row)) [
        | inl e ↦
            let gone = rest ∙ kept-none p (lookup hash rows) (unmet hash row rows new e) in
            ground (arith, gone, e)
        | inr e ↦ ground (arith, rest, e)
      ]

  pub find-kept :
      (p : Row T → Bool) (hash : Text) (rows : List (Row T))
      → IsKeyed rows
      → find (λ row. has_hash hash row && p row) rows ≡ kept p (lookup hash rows)
  find-kept p hash [] h = refl
  find-kept p hash (row ∷ rows) (new, h) =
      let rest = find-kept p hash rows h in
      elim (Bool-cases (has_hash hash row)) [
        | inl e ↦
            let gone = rest ∙ kept-none p (lookup hash rows) (unmet hash row rows new e) in
            ground (arith, gone, e)
        | inr e ↦ ground (arith, rest, e)
      ]

  -- Without rows of the hash.
  pub lookup-delete :
      (hash k : Text) (rows : List (Row T))
      → lookup k (filter (λ row. not (has_hash hash row)) rows)
        ≡ (if text_eq k hash then none else lookup k rows)
  lookup-delete hash k [] = ground arith
  lookup-delete hash k (row ∷ rows) =
      let rest = lookup-delete hash k rows in
      elim (Bool-cases (has_hash k row)) [
        | inl f ↦
            let same = ap (λ h. text_eq h hash) (has_hash_sound k row f) in
            ground (arith, rest, f, same)
        | inr f ↦ ground (arith, rest, f)
      ]

  abbrev pub mapped : (Row T → Row T) → Option (Row T) → Option (Row T)
  mapped f none = none
  mapped f (some row) = some (f row)

  extend_row-hash :
      (hash : Text) (expires_at : T) (row : Row T)
      → (extend_row hash expires_at row).token_hash ≡ row.token_hash
  extend_row-hash hash expires_at row = ground arith

  pub lookup-extend :
      (hash k : Text) (expires_at : T) (rows : List (Row T))
      → lookup k (map (extend_row hash expires_at) rows)
        ≡ mapped (extend_row hash expires_at) (lookup k rows)
  lookup-extend hash k expires_at [] = refl
  lookup-extend hash k expires_at (row ∷ rows) =
      let rest = lookup-extend hash k expires_at rows in
      let same = ap (λ h. text_eq h k) (extend_row-hash hash expires_at row) in
      rw same (elim (Bool-cases (has_hash k row)) [ inl e ↦ rw e refl | inr e ↦ rw e rest ])

  pub extend-IsKeyed :
      (hash : Text) (expires_at : T) (rows : List (Row T))
      → IsKeyed rows
      → IsKeyed (map (extend_row hash expires_at) rows)
  extend-IsKeyed hash expires_at [] h = tt
  extend-IsKeyed hash expires_at (row ∷ rows) (new, h) =
      let rest = extend-IsKeyed hash expires_at rows h in
      let after = map (extend_row hash expires_at) rows in
      (
        ap (λ k. lookup k after) (extend_row-hash hash expires_at row)
            ∙ lookup-extend hash row.token_hash expires_at rows
            ∙ ap (mapped (extend_row hash expires_at)) new,
        rest,
      )
