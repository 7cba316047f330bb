-- ===== src/Restore/Links.antt =====
-- The files that `cmdRestore` of src/cmd/dbb/restore.go restores, and their bases.
use db_backup.Base.{
  ℕ, zero, suc, ◌+◌, ◌≡◌, ◌≢◌, refl, true, false, List, [], ◌∷◌, Bytes, bytes_eq_iff, length, arith,
  Bool-cases, ◌⊎◌, inl, inr,
}
use db_backup.Storage.Interface.{Storage}
use db_backup.Retention.Listing.{Readers}
use db_backup.Restore.Chain.{next_base, is_root, order_loop, restore_order}

module _ (st : Storage) (io : Readers) (given file : Bytes) (s : st.State) where
  abbrev base_of : Bytes → Bytes
  base_of cur = next_base st io given file s cur

  -- Each file is the base of the one behind it, and the last is the file to restore.
  abbrev pub AreLinked : List Bytes → Type 0
  AreLinked [] = ⊥
  AreLinked (f ∷ []) = f ≡ file
  AreLinked (f ∷ g ∷ fs) =
      (next_base st io given file s g ≡ f) × (f ≢ []) × (f ≢ g) × AreLinked (g ∷ fs)

  -- The first of the files has no base but itself.
  abbrev pub HasRoot : List Bytes → Type 0
  HasRoot [] = ⊥
  HasRoot (f ∷ fs) = is_root st io f (next_base st io given file s f) ≡ true

  order_loop-AreLinked :
      (rounds : ℕ) (cur : Bytes) (after : List Bytes)
      → AreLinked (cur ∷ after)
      → AreLinked (order_loop st io given file s rounds cur (cur ∷ after))
        × (HasRoot (order_loop st io given file s rounds cur (cur ∷ after))
            ⊎ (length (order_loop st io given file s rounds cur (cur ∷ after))
                ≡ rounds + suc (length after)))
  unfolding order_loop
  order_loop-AreLinked zero cur after h = (h, inr (omega arith))
  order_loop-AreLinked (suc rounds) cur after h =
      elim (Bool-cases (is_root st io cur (base_of cur))) [
        | inl y ↦ rw (y, order_loop) (h, inl y)
        | inr n ↦
            let (nonempty, other) = fresh (base_of cur) n in
            let (linked, end) =
              order_loop-AreLinked rounds (base_of cur) (cur ∷ after) (refl, nonempty, other, h) in
            rw (n, order_loop) (linked, longer _ end)
      ]
    where
      fresh : (b : Bytes) → is_root st io cur b ≡ false → (b ≢ []) × (b ≢ cur)
      fresh b n = (
        λ e. ground (arith, n, e, bytes_eq_iff b []),
        λ e. ground (arith, n, e, bytes_eq_iff b cur),
      )

      longer :
          (l : List Bytes)
          → HasRoot l ⊎ (length l ≡ rounds + suc (suc (length after)))
          → HasRoot l ⊎ (length l ≡ suc rounds + suc (length after))
      longer l (inl r) = inl r
      longer l (inr e) = inr (omega (arith, e))

  -- A restore goes along the bases that the sidecars name, each just before the file that builds on
  -- it and the file asked for last; it begins with a file that has no other base, or it is cut off at
  -- 65 files.
  pub restore_order-AreLinked :
      AreLinked (restore_order st io given file s)
      × (HasRoot (restore_order st io given file s)
          ⊎ (length (restore_order st io given file s) ≡ 65))
  unfolding restore_order
  restore_order-AreLinked = order_loop-AreLinked 64 file [] refl
