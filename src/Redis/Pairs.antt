-- ===== src/Redis/Pairs.antt =====
-- Fields and values: how the restore rebuilds a map from them.
use db_backup.Base.{
  ◌*◌, ◌≡◌, refl, sym, ap, ◌∙◌, false, List, [], ◌∷◌, ◌++◌, append_assoc, append-nil, map, some,
  Bytes, bytes_eq, length, All, All_get, All-intro, In, arith, inl, inr, subst,
}
use db_backup.SortSlice.{SortSlice, Permᴰ-In}
use mathlib.Core.List.{Permᴰ}
use db_backup.Text.{bytes_lt}
use db_backup.Redis.Args.{quote_redis, unquote_redis_arg}
use db_backup.Redis.Tokens.{unquote_redis_arg-quote_redis, unquote_redis_arg-plain}
use db_backup.Redis.Data.{Codec, IsLawful}
use db_backup.Redis.Dump.{quoted_pairs, scored_members, keys_of, sorted_fields}
use db_backup.Redis.Restore.{put, fill_map, parse_members}

abbrev pub flat : List (Bytes × Bytes) → List Bytes
flat [] = []
flat ((k, v) ∷ rest) = k ∷ v ∷ flat rest

-- No key occurs twice.
abbrev pub IsDistinct : List Bytes → Type 0
IsDistinct [] = Unit
IsDistinct (k ∷ ks) = All (λ j. bytes_eq k j ≡ false) ks × IsDistinct ks

pub map-unquote_redis_arg :
    (vals : List Bytes) → map unquote_redis_arg (map quote_redis vals) ≡ vals
map-unquote_redis_arg [] = refl
map-unquote_redis_arg (v ∷ vals) =
    rw (unquote_redis_arg-quote_redis v, map-unquote_redis_arg vals) refl

pub map-quoted_pairs :
    (entries : List (Bytes × Bytes)) → map unquote_redis_arg (quoted_pairs entries) ≡ flat entries
unfolding quoted_pairs
map-quoted_pairs [] = refl
map-quoted_pairs ((k, v) ∷ rest) =
    rw (unquote_redis_arg-quote_redis k, unquote_redis_arg-quote_redis v, map-quoted_pairs rest)
      refl

put-new :
    (done : List (Bytes × Bytes)) (k v : Bytes)
    → All (λ j. bytes_eq j k ≡ false) (keys_of done)
    → put done k v ≡ done ++ (k, v) ∷ []
unfolding put
put-new [] k v h = refl
put-new ((j, u) ∷ done) k v (h, hs) = rw (h, put-new done k v hs) refl

before-IsDistinct :
    (done : List (Bytes × Bytes)) (k : Bytes) (ks : List Bytes)
    → IsDistinct (keys_of done ++ k ∷ ks)
    → All (λ j. bytes_eq j k ≡ false) (keys_of done)
before-IsDistinct [] k ks h = tt
before-IsDistinct ((j, u) ∷ done) k ks (h, hs) =
    (All_get _ (keys_of done ++ k ∷ ks) h (here (keys_of done)), before-IsDistinct done k ks hs)
  where
    here : (xs : List Bytes) → In k (xs ++ k ∷ ks)
    here [] = inl refl
    here (x ∷ xs) = inr (here xs)

keys_of-append : (xs ys : List (Bytes × Bytes)) → keys_of (xs ++ ys) ≡ keys_of xs ++ keys_of ys
keys_of-append [] ys = refl
keys_of-append ((k, v) ∷ xs) ys = ap (λ r. k ∷ r) (keys_of-append xs ys)

fill_map-behind :
    (done entries : List (Bytes × Bytes))
    → IsDistinct (keys_of done ++ keys_of entries)
    → fill_map done (flat entries) ≡ done ++ entries
unfolding fill_map
fill_map-behind done [] h = sym (append-nil done)
fill_map-behind done ((k, v) ∷ rest) h =
    ap (λ m. fill_map m (flat rest)) (put-new done k v (before-IsDistinct done k (keys_of rest) h))
    ∙ fill_map-behind (done ++ (k, v) ∷ []) rest (subst IsDistinct regroup h)
    ∙ append_assoc done ((k, v) ∷ []) rest
  where
    regroup : keys_of done ++ k ∷ keys_of rest ≡ keys_of (done ++ (k, v) ∷ []) ++ keys_of rest
    regroup =
        sym (append_assoc (keys_of done) (k ∷ []) (keys_of rest))
        ∙ ap (λ r. r ++ keys_of rest) (sym (keys_of-append done ((k, v) ∷ [])))

-- The map filled from the entries of a map is that map.
pub fill_map-flat :
    (entries : List (Bytes × Bytes))
    → IsDistinct (keys_of entries)
    → fill_map [] (flat entries) ≡ entries
fill_map-flat entries h = fill_map-behind [] entries h

pub length-flat : (entries : List (Bytes × Bytes)) → length (flat entries) ≡ 2 * length entries
length-flat [] = refl
length-flat ((k, v) ∷ rest) = omega (arith, length-flat rest)

bytes_eq_sym : (s t : Bytes) → bytes_eq s t ≡ bytes_eq t s
unfolding bytes_eq
bytes_eq_sym [] [] = refl
bytes_eq_sym [] (d ∷ t) = refl
bytes_eq_sym (c ∷ s) [] = refl
bytes_eq_sym (c ∷ s) (d ∷ t) = ground (arith, bytes_eq_sym s t)

cons-IsDistinct :
    {a b : Bytes} {xs ys : List Bytes}
    → a ≡ b
    → Permᴰ xs ys
    → All (λ j. bytes_eq b j ≡ false) ys
    → All (λ j. bytes_eq a j ≡ false) xs
cons-IsDistinct {a} {b} {xs} {ys} e p h =
    All-intro _ xs (λ j i. rw e (All_get (λ j. bytes_eq b j ≡ false) ys h (Permᴰ-In j p i)))

swap-IsDistinct : (a b : Bytes) (l : List Bytes) → IsDistinct (b ∷ a ∷ l) → IsDistinct (a ∷ b ∷ l)
swap-IsDistinct a b l ((n, bl), (al, h)) = ((bytes_eq_sym a b ∙ n, al), (bl, h))

Permᴰ-IsDistinct : {xs ys : List Bytes} → Permᴰ xs ys → IsDistinct ys → IsDistinct xs
Permᴰ-IsDistinct Permᴰ.nil h = h
Permᴰ-IsDistinct (Permᴰ.cons e p) (h, hs) = (cons-IsDistinct e p h, Permᴰ-IsDistinct p hs)
Permᴰ-IsDistinct (Permᴰ.swap {a} {b} {a'} {b'} {l} e f) h =
    swap-IsDistinct a b l
      (subst (λ x. IsDistinct (x ∷ a ∷ l)) (sym f) (subst (λ y. IsDistinct (a' ∷ y ∷ l)) (sym e) h))
Permᴰ-IsDistinct (Permᴰ.trans p q) h = Permᴰ-IsDistinct p (Permᴰ-IsDistinct q h)

keys_of-map : (f : Bytes → Bytes) (ks : List Bytes) → keys_of (map (λ k. (k, f k)) ks) ≡ ks
keys_of-map f [] = refl
keys_of-map f (k ∷ ks) = ap (λ r. k ∷ r) (keys_of-map f ks)

pub sorted_fields-IsDistinct :
    (sorter : SortSlice) (values : List (Bytes × Bytes))
    → IsDistinct (keys_of values)
    → IsDistinct (keys_of (sorted_fields sorter values))
unfolding sorted_fields
sorted_fields-IsDistinct sorter values h =
    subst IsDistinct (sym (keys_of-map _ _))
      (Permᴰ-IsDistinct (sorter.perm Bytes bytes_lt (keys_of values)) h)

length-Permᴰ : {xs ys : List Bytes} → Permᴰ xs ys → length xs ≡ length ys
length-Permᴰ Permᴰ.nil = refl
length-Permᴰ (Permᴰ.cons e p) = omega (arith, length-Permᴰ p)
length-Permᴰ (Permᴰ.swap e f) = refl
length-Permᴰ (Permᴰ.trans p q) = omega (arith, length-Permᴰ p, length-Permᴰ q)

length-keys_of : (fields : List (Bytes × Bytes)) → length (keys_of fields) ≡ length fields
length-keys_of [] = refl
length-keys_of ((k, v) ∷ rest) = omega (arith, length-keys_of rest)

pub length-sorted_fields :
    (sorter : SortSlice) (values : List (Bytes × Bytes))
    → length (sorted_fields sorter values) ≡ length values
unfolding sorted_fields
length-sorted_fields sorter values =
    sym (length-keys_of (sorted_fields sorter values))
    ∙ ap length (keys_of-map _ _)
    ∙ length-Permᴰ (sorter.perm Bytes bytes_lt (keys_of values))
    ∙ length-keys_of values

pub parse_members-scored :
    {Score : Type 0} (codec : Codec Score) (members : List (Score × Bytes))
    → IsLawful Score codec
    → parse_members Score codec (map unquote_redis_arg (scored_members codec members))
      ≡ some members
unfolding parse_members scored_members
parse_members-scored codec [] law = refl
parse_members-scored codec ((score, member) ∷ rest) law =
    rw
      (
        unquote_redis_arg-plain (codec.format_float score) (law.format_plain score),
        law.parse_format score,
        unquote_redis_arg-quote_redis member,
        parse_members-scored codec rest law,
      )
      refl

pub length-scored :
    {Score : Type 0} (codec : Codec Score) (members : List (Score × Bytes))
    → length (map unquote_redis_arg (scored_members codec members)) ≡ 2 * length members
unfolding scored_members
length-scored codec [] = refl
length-scored codec (m ∷ rest) = omega (arith, length-scored codec rest)
