-- ===== src/Restore/Kept.antt =====
-- The files of a restore (`cmdRestore` of src/cmd/dbb/restore.go) and the decisions of
-- src/internal/retention/retention.go.
use db_backup.Base.{
  ◌≡◌, ◌≢◌, sym, ◌∙◌, subst, Bool, false, List, [], ◌∷◌, some, Bytes, bytes_eq, All, In, ◌⊎◌, inl,
  inr,
}
use db_backup.Clock.{Time}
use db_backup.SortSlice.{SortSlice}
use db_backup.Storage.Interface.{Storage}
use db_backup.Retention.Listing.{Readers}
use db_backup.Retention.Policy.{BackupEntry, RetentionPolicy}
use db_backup.Retention.Chain.Walk.{full, find_entry}
use db_backup.Retention.Chain.Closure.{Needed, direct, further}
use db_backup.Retention.Tiers.Scan.{Build}
use db_backup.Retention.Apply.Defs.{apply_retention_at}
use db_backup.Retention.Apply.Fate.{HasUniqueNames, find_entry-In}
use db_backup.Retention.Apply.Deleted.{apply_retention_at-keeps_Needed}
use db_backup.Restore.Chain.{next_base, restore_order}
use db_backup.Restore.Links.{AreLinked, restore_order-AreLinked}

-- The file is among those listed.
abbrev pub IsListed : List BackupEntry → Bytes → Type 0
IsListed bs f = (b : BackupEntry) × (find_entry bs f ≡ some b)

-- The listing has the bases that the sidecars name.
abbrev pub ReadsBases : (st : Storage) → Readers → st.State → Bytes → List BackupEntry → Type 0
ReadsBases st io s file bs =
    (j : Bytes) (b : BackupEntry) → find_entry bs j ≡ some b → next_base st io [] file s j ≡ b.base

module _ (st : Storage) (io : Readers) (file : Bytes) (s : st.State) (bs : List BackupEntry)
    (reads : ReadsBases st io s file bs) (top : BackupEntry) (found : find_entry bs file ≡ some top)
    (extends : bytes_eq top.strategy full ≡ false) where
  below :
      (f g : Bytes)
      → (g ≡ file) ⊎ Needed bs g
      → IsListed bs g
      → next_base st io [] file s g ≡ f
      → f ≢ []
      → Needed bs f
  below f g (inl e) l h n =
      direct top f (find_entry-In bs file top found).0 extends
        (sym (reads file top found) ∙ subst (λ x. next_base st io [] file s x ≡ f) e h) n
  below f g (inr need) (b, l) h n = further g b f need l (sym (reads g b l) ∙ h) n

  first_of_chain :
      (f : Bytes) (fs : List Bytes)
      → AreLinked st io [] file s (f ∷ fs)
      → All (IsListed bs) (f ∷ fs)
      → (f ≡ file) ⊎ Needed bs f
  first_of_chain f [] h l = inl h
  first_of_chain f (g ∷ fs) (e, n, o, h) (l, ls) =
      inr (below f g (first_of_chain g fs h ls) ls.0 e n)

  each_of_chain :
      (fs : List Bytes) (f : Bytes)
      → AreLinked st io [] file s fs
      → All (IsListed bs) fs
      → In f fs
      → (f ≡ file) ⊎ Needed bs f
  each_of_chain [] f h l i = absurd i
  each_of_chain (g ∷ []) f h l (inl e) = inl (e ∙ h)
  each_of_chain (g ∷ []) f h l (inr i) = absurd i
  each_of_chain (g ∷ k ∷ fs) f h l (inl e) =
      subst (λ x. (x ≡ file) ⊎ Needed bs x) (sym e) (first_of_chain g (k ∷ fs) h l)
  each_of_chain (g ∷ k ∷ fs) f (e, n, o, h) (m, l) (inr i) = each_of_chain (k ∷ fs) f h l i

-- Where the listing has unique names and the bases of the sidecars, a prune deletes none of the other
-- files that a restore, without the flag --base, of a listed incremental or differential backup goes
-- through, if all of these are listed; whatever the policy, the edition and the licence are.
pub apply_retention_at-keeps_restore :
    (sorter : SortSlice) (build : Build) (allowed : Bool) (clock : Time) (bs : List BackupEntry)
    (p : RetentionPolicy) (now : Time) (out : List Bytes) (st : Storage) (io : Readers)
    (file : Bytes) (s : st.State) (top : BackupEntry) (f : Bytes)
    → apply_retention_at sorter build allowed clock bs p now ≡ some out
    → HasUniqueNames bs
    → ReadsBases st io s file bs
    → find_entry bs file ≡ some top
    → bytes_eq top.strategy full ≡ false
    → All (IsListed bs) (restore_order st io [] file s)
    → In f (restore_order st io [] file s)
    → f ≢ file
    → ¬ In f out
apply_retention_at-keeps_restore sorter build allowed clock bs p now out st io file s top f done u
      reads found extends listed i other =
    elim (each_of_chain st io file s bs reads top found extends (restore_order st io [] file s) f
      (restore_order-AreLinked st io [] file s).0 listed i) [
        | inl e ↦ absurd (other e)
        | inr need ↦
            apply_retention_at-keeps_Needed sorter build allowed clock bs p now out done u f need
      ]
