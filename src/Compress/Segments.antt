-- ===== src/Compress/Segments.antt =====
-- `Write` and `Close` of `chunkWriter` in src/internal/compress/compress.go: the data are cut into
-- segments of one size, the last of which may be shorter.
use db_backup.Base.{
  concat, concat-append, All, ℕ, zero, suc, ◌-◌, ◌≤◌, ◌<◌, ◌≡◌, refl, sym, ap, ◌∙◌, Bool, true,
  false, List, [], ◌∷◌, ◌++◌, append_assoc, append-nil, Bytes, ◌==◌, ltb, if◌then◌else◌, length,
  length-append, take, drop, take-append-drop, length-drop, length-take-le, ==_iff, subst, arith,
}

pub record Cut : Type 0 where
  pub segments : List Bytes
  pub cur : Bytes

abbrev pub add_segment : Bytes → Cut → Cut
add_segment seg c = record c { segments = seg ∷ c.segments }

abbrev min : ℕ → ℕ → ℕ
min a b = if ltb b a then b else a

-- The loop of `Write`: a round takes what there is room for, so as many rounds as bytes are enough.
unfoldable pub write_loop : ℕ → ℕ → Bytes → Bytes → Cut
write_loop size zero cur p = record { segments = []; cur = cur }
write_loop size (suc fuel) cur [] = record { segments = []; cur = cur }
write_loop size (suc fuel) cur (c ∷ p) =
    let n = min (size - length cur) (length (c ∷ p)) in
    let next = cur ++ take n (c ∷ p) in
    elim (length next == size) [
      | true ↦ add_segment next (write_loop size fuel [] (drop n (c ∷ p)))
      | false ↦ write_loop size fuel next (drop n (c ∷ p))
    ]

-- The calls of `Write`, and `Close`, which submits what is left.
unfoldable pub segments_of : ℕ → Bytes → List Bytes → List Bytes
unfolding write_loop
segments_of size [] [] = []
segments_of size (b ∷ cur) [] = (b ∷ cur) ∷ []
segments_of size cur (p ∷ ps) =
    let c = write_loop size (length p) cur p in c.segments ++ segments_of size c.cur ps

-- What one call of `Write` makes of the bytes under way and the new ones.
pub record IsCut (size : ℕ) (whole : Bytes) (c : Cut) : Type 0 where
  pub kept : concat c.segments ++ c.cur ≡ whole
  pub full : All (λ s. length s ≡ size) c.segments
  pub room : length c.cur < size

length-min :
    (size k n : ℕ)
    → 0 < size - k
    → (1 ≤ min (size - k) (suc n)) × (min (size - k) (suc n) ≤ size - k)
length-min size k n h = ground arith

one_round :
    (size : ℕ) (next rest : Bytes) (fresh longer : Cut) (b : Bool)
    → length next ≤ size
    → (length next == size) ≡ b
    → IsCut size rest fresh
    → (length next < size → IsCut size (next ++ rest) longer)
    → IsCut size (next ++ rest) (elim b [ true ↦ add_segment next fresh | false ↦ longer ])
one_round size next rest fresh longer true h e f l = record {
  kept = append_assoc next (concat fresh.segments) fresh.cur ∙ ap (λ r. next ++ r) f.kept;
  full = ((==_iff (length next) size).0 e, f.full);
  room = f.room;
}
one_round size next rest fresh longer false h e f l = l (ground (arith, e, h))

length-next :
    (size n : ℕ) (cur p : Bytes)
    → n ≤ size - length cur
    → length cur < size
    → length (cur ++ take n p) ≤ size
length-next size n cur p h k = omega (arith, length-append cur (take n p), length-take-le n p)

pub write_loop-IsCut :
    (size fuel : ℕ) (cur p : Bytes)
    → length cur < size
    → length p ≤ fuel
    → IsCut size (cur ++ p) (write_loop size fuel cur p)
unfolding write_loop
write_loop-IsCut size zero cur [] h k = record { kept = sym (append-nil cur); full = tt; room = h }
write_loop-IsCut size zero cur (c ∷ p) h k = ground (arith, k)
write_loop-IsCut size (suc fuel) cur [] h k = record {
  kept = sym (append-nil cur);
  full = tt;
  room = h;
}
write_loop-IsCut size (suc fuel) cur (c ∷ p) h k =
    let n : ℕ = min (size - length cur) (suc (length p)) in
    let next : Bytes = cur ++ take n (c ∷ p) in
    let rest : Bytes = drop n (c ∷ p) in
    let (one, fits) = length-min size (length cur) (length p) (omega (arith, h)) in
    let short : length rest ≤ fuel = omega (arith, length-drop n (c ∷ p), one, k) in
    subst (λ w. IsCut size w (write_loop size (suc fuel) cur (c ∷ p)))
      (append_assoc cur (take n (c ∷ p)) rest ∙ ap (λ r. cur ++ r) (take-append-drop n (c ∷ p)))
      (one_round size next rest _ _ (length next == size) (length-next size n cur (c ∷ p) fits h)
        refl (write_loop-IsCut size fuel [] rest (omega (arith, h)) short)
        (λ room. write_loop-IsCut size fuel next rest room short))

-- The segments are the data, in their order.
pub concat-segments_of :
    (size : ℕ) (ps : List Bytes) (cur : Bytes)
    → length cur < size
    → concat (segments_of size cur ps) ≡ cur ++ concat ps
unfolding segments_of
concat-segments_of size [] [] h = refl
concat-segments_of size [] (b ∷ cur) h = refl
concat-segments_of size (p ∷ ps) cur h =
    let w = write_loop-IsCut size (length p) cur p h (omega arith) in
    let c : Cut = write_loop size (length p) cur p in
    concat-append c.segments (segments_of size c.cur ps)
    ∙ ap (λ r. concat c.segments ++ r) (concat-segments_of size ps c.cur w.room)
    ∙ sym (append_assoc (concat c.segments) c.cur (concat ps))
    ∙ ap (λ r. r ++ concat ps) w.kept
    ∙ append_assoc cur p (concat ps)
