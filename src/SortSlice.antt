-- ===== src/SortSlice.antt =====
-- `sort.Slice`, which is not stable: all that its callers may rely on is that the result is a
-- permutation in which no element is `less` than one before it.
use mathlib.Core.List.{Permᴰ}
use db_backup.Base.{
  ℕ, zero, suc, ap, take, length, ◌≡◌, refl, Bool, true, false, List, [], ◌∷◌, In, inl, inr, All,
  All_get, All-intro, if◌then◌else◌, Bool-cases,
}

pub record IsStrictWeak {A : Type 0} (less : A → A → Bool) : Type 0 where
  pub asym : (x y : A) → less x y ≡ true → less y x ≡ false
  pub not_less_trans : (x y z : A) → less y x ≡ false → less z y ≡ false → less z x ≡ false

-- No later element is less than an earlier one.
abbrev pub IsOrdered : {A : Type 0} → (A → A → Bool) → List A → Type 0
IsOrdered less [] = Unit
IsOrdered less (x ∷ xs) = All (λ y. less y x ≡ false) xs × IsOrdered less xs

pub record SortSlice : Type 1 where
  pub sort : (A : Type 0) → (A → A → Bool) → List A → List A
  pub perm : (A : Type 0) (less : A → A → Bool) (xs : List A) → Permᴰ (sort A less xs) xs
  pub ordered :
      (A : Type 0) (less : A → A → Bool) (xs : List A)
      → IsStrictWeak less
      → IsOrdered less (sort A less xs)

pub Permᴰ-In : {A : Type 0} {xs ys : List A} (a : A) → Permᴰ xs ys → In a xs → In a ys
Permᴰ-In a Permᴰ.nil i = i
Permᴰ-In a (Permᴰ.cons e p) (inl h) = inl (cc)
Permᴰ-In a (Permᴰ.cons e p) (inr i) = inr (Permᴰ-In a p i)
Permᴰ-In a (Permᴰ.swap e f) (inl h) = inr (inl (cc))
Permᴰ-In a (Permᴰ.swap e f) (inr (inl h)) = inl (cc)
Permᴰ-In a (Permᴰ.swap e f) (inr (inr i)) = inr (inr i)
Permᴰ-In a (Permᴰ.trans p q) i = Permᴰ-In a q (Permᴰ-In a p i)

-- Insertion sort, which is what the library runs on at most twelve elements.
module _ {A : Type 0} (less : A → A → Bool) where
  unfoldable pub insert : A → List A → List A
  insert x [] = x ∷ []
  insert x (y ∷ ys) = let rest = insert x ys in if less x y then x ∷ y ∷ ys else y ∷ rest

  unfoldable pub insertion_sort : List A → List A
  unfolding insert
  insertion_sort [] = []
  insertion_sort (x ∷ xs) = insert x (insertion_sort xs)

  insert-perm : (x : A) (ys : List A) → Permᴰ (insert x ys) (x ∷ ys)
  unfolding insert
  insert-perm x [] = Permᴰ.cons refl Permᴰ.nil
  insert-perm x (y ∷ ys) = elim (Bool-cases (less x y)) [
    | inl h ↦ rw h (Permᴰ.cons refl (Permᴰ.cons refl (same ys)))
    | inr h ↦ rw h (Permᴰ.trans (Permᴰ.cons refl (insert-perm x ys)) (Permᴰ.swap refl refl))
  ]
    where
      same : (zs : List A) → Permᴰ zs zs
      same [] = Permᴰ.nil
      same (z ∷ zs) = Permᴰ.cons refl (same zs)

  pub insertion_sort-perm : (xs : List A) → Permᴰ (insertion_sort xs) xs
  unfolding insertion_sort
  insertion_sort-perm [] = Permᴰ.nil
  insertion_sort-perm (x ∷ xs) =
      Permᴰ.trans (insert-perm x (insertion_sort xs)) (Permᴰ.cons refl (insertion_sort-perm xs))

  insert-IsOrdered :
      IsStrictWeak less → (x : A) (ys : List A) → IsOrdered less ys → IsOrdered less (insert x ys)
  unfolding insert
  insert-IsOrdered w x [] h = (tt, tt)
  insert-IsOrdered w x (y ∷ ys) (hy, h) = elim (Bool-cases (less x y)) [
    | inl e ↦ rw e (
      (
        w.asym x y e,
        All-intro _ ys (λ z i. w.not_less_trans x y z (w.asym x y e) (All_get _ ys hy i)),
      ),
      (hy, h),
    )
    | inr e ↦ rw e (
      All-intro _ (insert x ys) (λ z i. back z e (Permᴰ-In z (insert-perm x ys) i)),
      insert-IsOrdered w x ys h,
    )
  ]
    where
      back : (z : A) → less x y ≡ false → In z (x ∷ ys) → less z y ≡ false
      back z e (inl i) = rw i e
      back z e (inr i) = All_get _ ys hy i

  pub insertion_sort-IsOrdered :
      IsStrictWeak less → (xs : List A) → IsOrdered less (insertion_sort xs)
  unfolding insertion_sort
  insertion_sort-IsOrdered w [] = tt
  insertion_sort-IsOrdered w (x ∷ xs) =
      insert-IsOrdered w x (insertion_sort xs) (insertion_sort-IsOrdered w xs)

abbrev pub by_insertion : SortSlice
by_insertion = record {
  sort = λ A less xs. insertion_sort less xs;
  perm = λ A less xs. insertion_sort-perm less xs;
  ordered = λ A less xs w. insertion_sort-IsOrdered less w xs;
}

-- An element of an ordered list that is not among the first `n` has `n` elements before it, and is
-- less than none of them.
pub take_before :
    {A : Type 0} (less : A → A → Bool) (n : ℕ) (xs : List A) (b : A)
    → IsOrdered less xs
    → In b xs
    → (In b (take n xs) → ⊥)
    → (length (take n xs) ≡ n) × All (λ c. less b c ≡ false) (take n xs)
take_before less zero xs b o i out = (refl, tt)
take_before less (suc n) [] b o i out = elim i [ ]
take_before less (suc n) (x ∷ xs) b o (inl e) out = absurd (out (inl e))
take_before less (suc n) (x ∷ xs) b (first, o) (inr i) out =
    let (len, all) = take_before less n xs b o i (λ j. out (inr j)) in
    (ap suc len, (All_get _ xs first i, all))

pub In-take : {A : Type 0} (n : ℕ) (xs : List A) (c : A) → In c (take n xs) → In c xs
In-take zero xs c i = elim i [ ]
In-take (suc n) [] c i = elim i [ ]
In-take (suc n) (x ∷ xs) c (inl e) = inl e
In-take (suc n) (x ∷ xs) c (inr i) = inr (In-take n xs c i)
