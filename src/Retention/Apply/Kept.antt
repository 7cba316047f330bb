-- ===== src/Retention/Apply/Kept.antt =====
-- What is kept before the tiers, as a test on a file name that does not mention the loops.
use db_backup.Base.{
  ℕ, zero, suc, ◌+◌, ◌≡◌, refl, Bool, true, ◌&&◌, ◌||◌, not, List, [], ◌∷◌, Bytes, mem, bytes_eq,
  leb, if◌then◌else◌, arith, ℤ, pos, negsuc, pos_part, any_of, take, bytes_eq_iff, Bool-cases, inl,
  inr,
}
use db_backup.Clock.{Time, is_zero}
use db_backup.Retention.Policy.{BackupEntry, RetentionPolicy, is_positive}
use db_backup.Retention.Apply.Defs.{keep_needed, keep_within, keep_last, base_kept, cutoff}

-- A backup of the list has that name.
abbrev pub named : Bytes → List BackupEntry → Bool
named k = any_of (λ b. bytes_eq k b.file_name)

abbrev pub in_window : ℕ → BackupEntry → Bool
in_window from b = not (is_zero b.timestamp) && leb from b.timestamp.instant

abbrev pub named_in_window : Bytes → ℕ → List BackupEntry → Bool
named_in_window k from = any_of (λ b. bytes_eq k b.file_name && in_window from b)

pub mem-keep_needed :
    (k : Bytes) (needed : List Bytes) (bs : List BackupEntry) (kept : List Bytes)
    → mem k (keep_needed needed bs kept) ≡ (mem k kept || (mem k needed && named k bs))
unfolding keep_needed mem
mem-keep_needed k needed [] kept = ground arith
mem-keep_needed k needed (b ∷ bs) kept = ground (
  arith,
  mem-keep_needed k needed bs kept,
  mem-keep_needed k needed bs (b.file_name ∷ kept),
  bytes_eq_iff k b.file_name,
)

pub mem-keep_within :
    (k : Bytes) (from : ℕ) (bs : List BackupEntry) (kept : List Bytes)
    → mem k (keep_within from bs kept) ≡ (mem k kept || named_in_window k from bs)
unfolding keep_within mem
mem-keep_within k from [] kept = ground arith
mem-keep_within k from (b ∷ bs) kept =
    ground (arith, mem-keep_within k from bs kept, mem-keep_within k from bs (b.file_name ∷ kept))

pub mem-keep_last :
    (k : Bytes) (last n count : ℕ) (bs : List BackupEntry) (kept : List Bytes)
    → last ≡ count + n
    → mem k (keep_last (pos last) count bs kept) ≡ (mem k kept || named k (take n bs))
unfolding keep_last mem
mem-keep_last k last zero count [] kept e = ground arith
mem-keep_last k last zero count (b ∷ bs) kept e = ground arith
mem-keep_last k last (suc n) count [] kept e = ground arith
mem-keep_last k last (suc n) count (b ∷ bs) kept e =
    ground (arith, mem-keep_last k last n (count + 1) bs (b.file_name ∷ kept))

-- The three rules of `base_kept`.
abbrev pub rule_needed : List Bytes → List BackupEntry → Bytes → Bool
rule_needed needed bs k = mem k needed && named k bs

abbrev pub rule_within : RetentionPolicy → Time → List BackupEntry → Bytes → Bool
rule_within p now bs k = is_positive p.within && named_in_window k (cutoff p now) bs

abbrev pub rule_last : RetentionPolicy → List BackupEntry → Bytes → Bool
rule_last p bs k = named k (take (pos_part p.last) bs)

keep_last_rule :
    (k : Bytes) (last : ℤ) (bs : List BackupEntry) (kept : List Bytes)
    → mem k (if is_positive last then keep_last last 0 bs kept else kept)
      ≡ (mem k kept || named k (take (pos_part last) bs))
keep_last_rule k (negsuc n) bs kept = ground arith
keep_last_rule k (pos zero) bs kept = ground arith
keep_last_rule k (pos (suc n)) bs kept =
    let p : is_positive (pos (suc n)) ≡ true = ground arith in
    rw p (mem-keep_last k (suc n) (suc n) 0 bs kept (omega arith))

within_rule :
    (k : Bytes) (p : RetentionPolicy) (now : Time) (bs : List BackupEntry) (kept : List Bytes)
    → mem k (if is_positive p.within then keep_within (cutoff p now) bs kept else kept)
      ≡ (mem k kept || rule_within p now bs k)
within_rule k p now bs kept = elim (Bool-cases (is_positive p.within)) [
  | inl h ↦ rw h (mem-keep_within k (cutoff p now) bs kept)
  | inr h ↦ rw h (ground arith)
]

pub mem-base_kept :
    (k : Bytes) (bs : List BackupEntry) (p : RetentionPolicy) (now : Time) (needed : List Bytes)
    → mem k (base_kept bs p now needed)
      ≡ ((rule_needed needed bs k || rule_within p now bs k) || rule_last p bs k)
unfolding base_kept
mem-base_kept k bs p now needed =
    let kept = keep_needed needed bs [] in
    let kept' = if is_positive p.within then keep_within (cutoff p now) bs kept else kept in
    simp
      (
        keep_last_rule k p.last bs kept',
        within_rule k p now bs kept,
        mem-keep_needed k needed bs [],
      )
      (unfold mem in refl)
