-- ===== src/Errors/Causes.antt =====
-- The leaves of joined errors.
use bgx.Base.{
  Bool, true, false, not, List, [], ◌∷◌, ◌++◌, Option, none, some, ◌≡◌, refl, ap, sym, ◌∙◌,
  if◌then◌else◌, Bytes, append-nil, append-eq-nil,
}
use bgx.Errors.{
  Cause, Err, Errs, end, also, leaf, joined, join_all, also_some, join, causes, causes_all,
  causes_of, filter, Omits, hollow, end,
}

keep-append :
    {A : Type 0} (b : Bool) (x : A) (xs ys : List A)
    → (if b then x ∷ xs else xs) ++ ys ≡ (if b then x ∷ (xs ++ ys) else xs ++ ys)
keep-append true x xs ys = refl
keep-append false x xs ys = refl

pub filter-append :
    {A : Type 0} (p : A → Bool) (xs ys : List A) → filter p (xs ++ ys) ≡ filter p xs ++ filter p ys
filter-append p [] ys = refl
filter-append p (x ∷ xs) ys =
    rw (filter-append p xs ys) (sym (keep-append (p x) x (filter p xs) (filter p ys)))

pub causes-join_all : (es : Errs) → causes_of (join_all es) ≡ causes_all es
unfolding causes
causes-join_all end = refl
causes-join_all (also e es) = refl

pub causes_all-also_some :
    (e : Option Err) (es : Errs) → causes_all (also_some e es) ≡ causes_of e ++ causes_all es
unfolding causes
causes_all-also_some none es = refl
causes_all-also_some (some e) es = refl

-- `errors.Join` keeps the leaves of both, in their order.
pub causes-join : (a b : Option Err) → causes_of (join a b) ≡ causes_of a ++ causes_of b
unfolding causes
causes-join none none = refl
causes-join none (some b) = append-nil (causes b)
causes-join (some a) none = refl
causes-join (some a) (some b) = ap (causes a ++◌) (append-nil (causes b))

-- An error of which nothing is left is away from what is joined.
pub join_all-absent :
    (e : Option Err) (es : Errs)
    → (causes_of e ≡ [] → e ≡ none)
    → (causes_all es ≡ [] → es ≡ end)
    → causes_all (also_some e es) ≡ []
    → also_some e es ≡ end
join_all-absent e es he hes h =
    let (h1, h2) =
      append-eq-nil (causes_of e) (causes_all es) (sym (causes_all-also_some e es) ∙ h) in
    rw (he h1, hes h2) refl

-- What a filter makes of several errors.
pub record AllOmit (p : Cause → Bool) (es result : Errs) : Type 0 where
  pub left : causes_all result ≡ filter (λ c. not (p c)) (causes_all es)
  pub absent : causes_all result ≡ [] → result ≡ end

by_answer :
    {p : Cause → Bool} {c : Cause} (b : Bool)
    → p c ≡ b
    → Omits p (leaf c) (if b then none else some (leaf c))
unfolding causes
by_answer true is = record { left = rw is refl; absent = λ h. refl }
by_answer false is = record { left = rw is refl; absent = λ h. cc }

pub leaf-Omits :
    (p : Cause → Bool) (c : Cause) → Omits p (leaf c) (if p c then none else some (leaf c))
leaf-Omits p c = by_answer (p c) refl

pub also-AllOmit :
    {p : Cause → Bool} {e : Err} {es : Errs} {r : Option Err} {rs : Errs}
    → Omits p e r
    → AllOmit p es rs
    → AllOmit p (also e es) (also_some r rs)
unfolding causes
also-AllOmit {p} {e} {es} {r} {rs} h hs = record {
  left =
      rw
        (
          causes_all-also_some r rs,
          filter-append (λ c. not (p c)) (causes e) (causes_all es),
          h.left,
          hs.left,
        )
        refl;
  absent = join_all-absent r rs h.absent hs.absent;
}

pub joined-Omits :
    {p : Cause → Bool} {es rs : Errs} → AllOmit p es rs → Omits p (joined es) (join_all rs)
unfolding causes
joined-Omits {p} {es} {rs} h = record {
  left = rw (causes-join_all rs) h.left;
  absent = λ none_left. rw (h.absent (sym (causes-join_all rs) ∙ none_left)) refl;
}

pub hollow-Omits : {p : Cause → Bool} (message : Bytes) → Omits p (hollow message) none
unfolding causes
hollow-Omits message = record { left = refl; absent = λ n. refl }

pub end-AllOmit : {p : Cause → Bool} → AllOmit p end end
unfolding causes
end-AllOmit = record { left = refl; absent = λ h. refl }
