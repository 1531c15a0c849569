-- ===== src/Query/Reports.antt =====
-- Results of a validator.
use spot_price.Prelude.{
  Option, none, some, List, [], ◌∷◌, ◌≡◌, ◌≢◌, refl, arith, Result, ok, err, subst, sym,
}
use spot_price.Query.{Issue, ValidationError}
use spot_price.Query.Validators.{◌>>=◌, finish}

-- A good value, or an error that names at least one issue.
abbrev pub IsReported : {A : Type 0} → (A → Type 0) → Result A ValidationError → Type 0
IsReported Good (ok a) = Good a
IsReported Good (err e) = e.issues ≢ []

abbrev pub IsSome : {A : Type 0} → (A → Type 0) → Option A → Type 0
IsSome Good none = ⊥
IsSome Good (some a) = Good a

abbrev pub IfSome : {A : Type 0} → (A → Type 0) → Option A → Type 0
IfSome Good none = Unit
IfSome Good (some a) = Good a

-- `finish` is as good as its value where there are no issues.
pub finish-IsReported :
    {A : Type 0} (Good : A → Type 0) (issues : List Issue) (value : Option A)
    → (issues ≡ [] → IsSome Good value)
    → IsReported Good (finish issues value)
finish-IsReported Good [] none f = elim (f refl) [ ]
finish-IsReported Good [] (some a) f = f refl
finish-IsReported Good (i ∷ issues) value f = ground arith

pub IsSome-bind :
    {A B : Type 0} (Good : B → Type 0) (o : Option A) (a : A) (f : A → Option B)
    → o ≡ some a
    → IsSome Good (f a)
    → IsSome Good (o >>= f)
IsSome-bind Good o a f e h = subst (λ x. IsSome Good (x >>= f)) (sym e) h
