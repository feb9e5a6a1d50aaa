-- ===== src/AddrSelect/Sorted.antt =====
-- The stable sort over any test, against a property of the elements on which the test is
-- asymmetric and "not before" is transitive.
use mathlib.Core.List.{reverse, reverse-cons, reverse_perm, append_assoc, append-nil, perm_middle}
use mathlib.Core.List.Perm
use spoof_dpi_turkiye.Prelude.{
  ◌≡◌, refl, sym, ap, ◌∙◌, subst, Bool, true, false, List, [], ◌∷◌, ◌++◌, Perm, inl, inr, arith,
  All, All-append, Bool-cases, if◌then◌else◌,
}
use spoof_dpi_turkiye.AddrSelect.Sort.{insert_back, insert_all, stable_sort}

-- Each element stands in the relation to all behind it.
abbrev pub Ordered {ℓ κ} : {A : Type ℓ} → (A → A → Type κ) → List A → Type κ
Ordered R [] = Unit
Ordered R (x ∷ xs) = All (R x) xs × Ordered R xs

abbrev pub keep {ℓ} : {A : Type ℓ} → (A → Bool) → List A → List A
keep p [] = []
keep p (x ∷ xs) = let rest = keep p xs in if p x then x ∷ rest else rest

module _ {ℓ} {A : Type ℓ} where
  All-reverse {κ} : (P : A → Type κ) (xs : List A) → All P xs → All P (reverse xs)
  All-reverse P [] h = tt
  All-reverse P (x ∷ xs) h =
      rw (reverse-cons x xs) (All-append P (reverse xs) (x ∷ []) (All-reverse P xs h.1) (h.0, tt))

  Ordered-snoc {κ} :
      (R : A → A → Type κ) (xs : List A) (y : A)
      → All (λ x. R x y) xs
      → Ordered R xs
      → Ordered R (xs ++ y ∷ [])
  Ordered-snoc R [] y h o = (tt, tt)
  Ordered-snoc R (x ∷ xs) y h o =
      (All-append (R x) xs (y ∷ []) o.0 (h.0, tt), Ordered-snoc R xs y h.1 o.1)

  pub Ordered-reverse {κ} :
      (R : A → A → Type κ) (xs : List A) → Ordered (λ x y. R y x) xs → Ordered R (reverse xs)
  Ordered-reverse R [] o = tt
  Ordered-reverse R (x ∷ xs) o =
      rw (reverse-cons x xs)
        (Ordered-snoc R (reverse xs) x (All-reverse (λ y. R y x) xs o.0) (Ordered-reverse R xs o.1))

  keep-append : (p : A → Bool) (xs ys : List A) → keep p (xs ++ ys) ≡ keep p xs ++ keep p ys
  keep-append p [] ys = refl
  keep-append p (x ∷ xs) ys = ground (arith, keep-append p xs ys)

  keep-reverse : (p : A → Bool) (xs : List A) → keep p (reverse xs) ≡ reverse (keep p xs)
  keep-reverse p [] = refl
  keep-reverse p (x ∷ xs) =
      rw (reverse-cons x xs, keep-append p (reverse xs) (x ∷ []), keep-reverse p xs)
        (ground (arith, reverse-cons x (keep p xs), append-nil (reverse (keep p xs))))

module _ {ℓ} {A : Type ℓ} (lt : A → A → Bool) where
  insert_back-perm : (x : A) (done : List A) → Perm (insert_back lt x done) (x ∷ done)
  unfolding insert_back
  insert_back-perm x [] = Perm.refl _
  insert_back-perm x (y ∷ done) = elim (Bool-cases (lt x y)) [
    | inl e ↦ rw e (Perm.trans (Perm.cons y (insert_back-perm x done)) (Perm.swap x y done))
    | inr e ↦ rw e (Perm.refl _)
  ]

  insert_all-perm : (done rest : List A) → Perm (insert_all lt done rest) (rest ++ done)
  unfolding insert_all
  insert_all-perm done [] = Perm.refl _
  insert_all-perm done (x ∷ rest) =
      Perm.trans (insert_all-perm (insert_back lt x done) rest)
        (Perm.trans (Perm.append_left rest (insert_back-perm x done)) (perm_middle rest done))

  pub stable_sort-perm : (xs : List A) → Perm (stable_sort lt xs) xs
  unfolding stable_sort
  stable_sort-perm xs =
      Perm.trans (reverse_perm (insert_all lt [] xs))
        (subst (Perm (insert_all lt [] xs)) (append-nil xs) (insert_all-perm [] xs))

  All-insert_back {μ} :
      (Q : A → Type μ) (x : A) (done : List A) → Q x → All Q done → All Q (insert_back lt x done)
  unfolding insert_back
  All-insert_back Q x [] h k = (h, tt)
  All-insert_back Q x (y ∷ done) h k = elim (Bool-cases (lt x y)) [
    | inl e ↦ rw e (k.0, All-insert_back Q x done h k.1)
    | inr e ↦ rw e (h, k)
  ]

  -- The elements of a class in which no element is before another keep their order.
  module _ {κ} (P : A → Type κ) (p : A → Bool)
      (level : (x y : A) → P x → P y → p x ≡ true → p y ≡ true → lt x y ≡ false) where
    keep-insert_back :
        (x : A) (done : List A)
        → P x
        → All P done
        → keep p (insert_back lt x done) ≡ keep p (x ∷ done)
    unfolding insert_back
    keep-insert_back x [] px ps = refl
    keep-insert_back x (y ∷ done) px ps = elim (Bool-cases (lt x y)) [
      | inl e ↦ rw e (ground (arith, level x y px ps.0, keep-insert_back x done px ps.1))
      | inr e ↦ rw e
    ]

    keep-insert_all :
        (done rest : List A)
        → All P done
        → All P rest
        → keep p (reverse (insert_all lt done rest)) ≡ keep p (reverse done ++ rest)
    unfolding insert_all
    keep-insert_all done [] ps qs = ap (keep p) (sym (append-nil (reverse done)))
    keep-insert_all done (x ∷ rest) ps qs =
        keep-insert_all (insert_back lt x done) rest (All-insert_back P x done qs.0 ps) qs.1 ∙ moved
      where
        moved : keep p (reverse (insert_back lt x done) ++ rest) ≡ keep p (reverse done ++ x ∷ rest)
        moved = rw (
          keep-append p (reverse (insert_back lt x done)) rest,
          keep-reverse p (insert_back lt x done),
          keep-insert_back x done qs.0 ps,
          ← keep-reverse p (x ∷ done),
          reverse-cons x done,
          ← keep-append p (reverse done ++ x ∷ []) rest,
          append_assoc,
        )

    pub keep-stable_sort : (xs : List A) → All P xs → keep p (stable_sort lt xs) ≡ keep p xs
    unfolding stable_sort
    keep-stable_sort xs qs = keep-insert_all [] xs tt qs

module _ {ℓ κ} {A : Type ℓ} (lt : A → A → Bool) (P : A → Type κ)
    (asym : (x y : A) → P x → P y → lt x y ≡ true → lt y x ≡ false)
    (trans : (x y z : A) → P x → P y → P z → lt y x ≡ false → lt z y ≡ false → lt z x ≡ false) where
  abbrev NotBefore : A → A → Type 0
  NotBefore y z = lt y z ≡ false

  All-NotBefore :
      (x y : A) (done : List A)
      → P x
      → P y
      → All P done
      → lt x y ≡ false
      → All (NotBefore y) done
      → All (NotBefore x) done
  All-NotBefore x y [] px py ps e h = tt
  All-NotBefore x y (z ∷ done) px py ps e h =
      (trans z y x ps.0 py px h.0 e, All-NotBefore x y done px py ps.1 e h.1)

  insert_back-Ordered :
      (x : A) (done : List A)
      → P x
      → All P done
      → Ordered NotBefore done
      → Ordered NotBefore (insert_back lt x done)
  unfolding insert_back
  insert_back-Ordered x [] px ps o = (tt, tt)
  insert_back-Ordered x (y ∷ done) px ps o = elim (Bool-cases (lt x y)) [
    | inl e ↦ rw e (
      All-insert_back lt (NotBefore y) x done (asym x y px ps.0 e) o.0,
      insert_back-Ordered x done px ps.1 o.1,
    )
    | inr e ↦ rw e ((e, All-NotBefore x y done px ps.0 ps.1 e o.0), o)
  ]

  insert_all-Ordered :
      (done rest : List A)
      → All P done
      → All P rest
      → Ordered NotBefore done
      → Ordered NotBefore (insert_all lt done rest)
  unfolding insert_all
  insert_all-Ordered done [] ps qs o = o
  insert_all-Ordered done (x ∷ rest) ps qs o =
      insert_all-Ordered (insert_back lt x done) rest (All-insert_back lt P x done qs.0 ps) qs.1
        (insert_back-Ordered x done qs.0 ps o)

  pub stable_sort-Ordered :
      (xs : List A) → All P xs → Ordered (λ x y. lt y x ≡ false) (stable_sort lt xs)
  unfolding stable_sort
  stable_sort-Ordered xs ps =
      Ordered-reverse (λ x y. lt y x ≡ false) (insert_all lt [] xs)
        (insert_all-Ordered [] xs tt ps tt)
