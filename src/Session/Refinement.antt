-- ===== src/Session/Refinement.antt =====
-- The table as a plain map of sessions.
use spot_price.Prelude.{
  true, not, Option, none, some, List, ◌∷◌, filter, map, if◌then◌else◌, ◌≡◌, refl, sym, ap, ◌∙◌,
  arith, inl, inr, Bool-cases, find-true,
}
use spot_price.Prelude.Text.{Text, text_eq, text_eq_sound}
use spot_price.Jiff.{Instant, IsInstant}
use spot_price.Session.{Row, has_hash, is_unexpired, extend_row}
use spot_price.Session.Rows.{
  lookup, IsKeyed, has_hash_sound, filter-IsKeyed, kept, lookup-filter, lookup-delete, mapped,
  lookup-extend, extend-IsKeyed,
}
use spot_price.Session.Steps.{Sessions, live, set_session, drop_session, move_expiry}

module _ {T : Type 0} ⦃i : Instant T⦄ where
  -- From `now` on, the table shows the sessions of the map.
  abbrev pub Refines : T → List (Row T) → Sessions T → Type 0
  Refines now rows sessions =
      IsKeyed rows
      × ((t : T) (hash : Text)
          → i.le now t ≡ true
          → kept (is_unexpired t) (lookup hash rows) ≡ kept (is_unexpired t) (sessions hash))

module _ {T : Type 0} ⦃i : Instant T⦄ (l : IsInstant T) where
  open i use {le}

  pub le_trans : (a b c : T) → le a b ≡ true → le b c ≡ true → le a c ≡ true
  le_trans a b c h k = ground (arith, l.le-eq a b, l.le-eq b c, l.le-eq a c)

  pub le_refl : (a : T) → le a a ≡ true
  le_refl a = ground (arith, l.le-eq a a)

  pub Refines-later :
      (now later : T) (rows : List (Row T)) (sessions : Sessions T)
      → le now later ≡ true
      → Refines now rows sessions
      → Refines later rows sessions
  Refines-later now later rows sessions h (keyed, same) =
      (keyed, λ t hash k. same t hash (le_trans now later t h k))

  -- What has expired stays expired.
  kept-kept :
      (now t : T) (o : Option (Row T))
      → le now t ≡ true
      → kept (is_unexpired t) (kept (is_unexpired now) o) ≡ kept (is_unexpired t) o
  kept-kept now t none h = refl
  kept-kept now t (some row) h = ground (arith, le_trans row.expires_at now t)

  -- A sign-in.
  pub Refines-set :
      (now : T) (row : Row T) (rows : List (Row T)) (sessions : Sessions T)
      → lookup row.token_hash (filter (is_unexpired now) rows) ≡ none
      → Refines now rows sessions
      → Refines now (row ∷ filter (is_unexpired now) rows) (set_session row sessions)
  Refines-set now row rows sessions new (keyed, same) = (
    (new, filter-IsKeyed (is_unexpired now) rows keyed),
    λ t k h.
        let old =
          ap (kept (is_unexpired t)) (lookup-filter (is_unexpired now) k rows keyed)
          ∙ kept-kept now t (lookup k rows) h
          ∙ same t k h in
        elim (Bool-cases (text_eq row.token_hash k)) [ inl e ↦ rw e refl | inr e ↦ rw e old ],
  )

  -- A sign-out.
  pub Refines-drop :
      (now : T) (hash : Text) (rows : List (Row T)) (sessions : Sessions T)
      → Refines now rows sessions
      → Refines now (filter (λ row. not (has_hash hash row)) rows) (drop_session hash sessions)
  Refines-drop now hash rows sessions (keyed, same) = (
    filter-IsKeyed (λ row. not (has_hash hash row)) rows keyed,
    λ t k h.
        ap (kept (is_unexpired t)) (lookup-delete hash k rows)
        ∙ elim (Bool-cases (text_eq k hash)) [ inl e ↦ rw e refl | inr e ↦ rw e (same t k h) ],
  )

  -- A renewal.
  abbrev with_expiry : T → Row T → Row T
  with_expiry expires_at row = record row { expires_at = expires_at }

  mapped-extend :
      (hash k : Text) (expires_at : T) (rows : List (Row T)) (o : Option (Row T))
      → lookup k rows ≡ o
      → mapped (extend_row hash expires_at) o
        ≡ (if text_eq k hash then mapped (with_expiry expires_at) o else o)
  mapped-extend hash k expires_at rows none e = ground arith
  mapped-extend hash k expires_at rows (some row) e =
      let is_k = has_hash_sound k row (find-true (has_hash k) rows e) in
      let same = ap (λ h. text_eq h hash) is_k in ground (arith, same)

  pub kept-some :
      (now : T) (o : Option (Row T)) (row : Row T)
      → kept (is_unexpired now) o ≡ some row
      → o ≡ some row
  kept-some now none row e = ground (arith, e)
  kept-some now (some r) row e = ground (arith, e)

  pub Refines-move :
      (now : T) (hash : Text) (expires_at : T) (rows : List (Row T)) (sessions : Sessions T)
      (row : Row T)
      → live now hash sessions ≡ some row
      → Refines now rows sessions
      → Refines now (map (extend_row hash expires_at) rows) (move_expiry hash expires_at sessions)
  Refines-move now hash expires_at rows sessions row e (keyed, same) = (
    extend-IsKeyed hash expires_at rows keyed,
    λ t k h.
        ap (kept (is_unexpired t)) (
          lookup-extend hash k expires_at rows
          ∙ mapped-extend hash k expires_at rows (lookup k rows) refl)
        ∙ elim (Bool-cases (text_eq k hash)) [
          | inl p ↦
              let k_hash = text_eq_sound k hash p in
              let table = kept-some now (lookup hash rows) row (same now hash (le_refl now) ∙ e) in
              let plain = kept-some now (sessions hash) row e in
              let both =
                ap (λ x. lookup x rows) k_hash ∙ table ∙ sym plain ∙ ap sessions (sym k_hash) in
              rw p (ap (λ o. kept (is_unexpired t) (mapped (with_expiry expires_at) o)) both)
          | inr p ↦ rw p (same t k h)
        ],
  )
