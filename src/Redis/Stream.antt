-- ===== src/Redis/Stream.antt =====
-- `xRangeAll` reads a stream whole, page by page.
use db_backup.Base.{
  ℕ, zero, suc, ◌*◌, ◌≤◌, ◌<◌, ◌≡◌, refl, sym, ap, ◌∙◌, true, false, List, [], ◌∷◌, ◌++◌,
  append_assoc, append-nil, some, Bytes, codes, ltb, length, take, drop, subst, take-append-drop,
  length-drop, arith, Bool-cases, inl, inr,
}
use db_backup.Redis.Data.{Message}
use db_backup.Redis.Keys.{Client, page_size, next_start, x_range_all}

-- The message in front of the rest.
abbrev pub last_id : Message → List Message → Bytes
last_id m [] = m.id
last_id m (n ∷ ms) = last_id n ms

next_start-last_id :
    (start : Bytes) (m : Message) (ms : List Message)
    → next_start start (m ∷ ms) ≡ b'(' ∷ last_id m ms
next_start-last_id start m [] = refl
next_start-last_id start m (n ∷ ms) = next_start-last_id start n ms

-- Where the last message of a page stands in the stream.
last_of_page :
    (done : List Message) (m : Message) (ms rest : List Message)
    → (front : List Message) × (l : Message) × (done ++ (m ∷ ms ++ rest) ≡ front ++ l ∷ rest)
      × (l.id ≡ last_id m ms)
last_of_page done m [] rest = (done, m, refl, refl)
last_of_page done m (n ∷ ms) rest =
    let (front, l, whole, same) = last_of_page (done ++ m ∷ []) n ms rest in
    (front, l, sym (append_assoc done (m ∷ []) (n ∷ ms ++ rest)) ∙ whole, same)

short-drop : {A : Type 0} (n : ℕ) (xs : List A) → ltb (length (take n xs)) n ≡ true → drop n xs ≡ []
short-drop zero xs h = ground arith
short-drop (suc n) [] h = refl
short-drop (suc n) (x ∷ xs) h = short-drop n xs (ground (arith, h))

full-take : {A : Type 0} (n : ℕ) (xs : List A) → ltb (length (take n xs)) n ≡ false → n ≤ length xs
full-take zero xs h = omega arith
full-take (suc n) [] h = ground (arith, h)
full-take (suc n) (x ∷ xs) h = ground (arith, full-take n xs)

module _ {Score : Type 0} (client : Client Score) (key : Bytes) (msgs : List Message) where
  -- The answers to XRANGE with a count: from "-" on the first messages of the stream, and from "(" with
  -- the identifier of a message on the first of those behind it.
  abbrev pub Serves : Type 0
  Serves =
      ((n : ℕ) → client.x_range_n key (codes "-") n ≡ some (take n msgs))
      × ((front : List Message) (l : Message) (behind : List Message) (n : ℕ)
          → msgs ≡ front ++ l ∷ behind
          → client.x_range_n key (b'(' ∷ l.id) n ≡ some (take n behind))

  -- A start of which the server gives these messages.
  abbrev Starts : Bytes → List Message → Type 0
  Starts start rest = (k : ℕ) → client.x_range_n key start k ≡ some (take k rest)

  Starts-page :
      (start : Bytes) (done : List Message) (m : Message) (ms rest : List Message)
      → Serves
      → msgs ≡ done ++ (m ∷ ms ++ rest)
      → Starts (next_start start (m ∷ ms)) rest
  Starts-page start done m ms rest serves whole =
      let (front, l, parts, same) = last_of_page done m ms rest in
      subst (λ s. Starts s rest) (ap (λ i. b'(' ∷ i) same ∙ sym (next_start-last_id start m ms))
        (λ k. serves.1 front l rest k (whole ∙ parts))

  -- One page, and the loop behind it.
  page_step :
      (fuel : ℕ) (start : Bytes) (done : List Message) (m : Message) (ms rest : List Message)
      → client.x_range_n key start page_size ≡ some (m ∷ ms)
      → (ltb (length (m ∷ ms)) page_size ≡ true → rest ≡ [])
      → (ltb (length (m ∷ ms)) page_size ≡ false
          → x_range_all client fuel key (next_start start (m ∷ ms)) (done ++ m ∷ ms)
            ≡ some (done ++ m ∷ ms ++ rest))
      → x_range_all client (suc fuel) key start done ≡ some (done ++ m ∷ ms ++ rest)
  unfolding x_range_all
  page_step fuel start done m ms rest answer short long =
      rw (answer, x_range_all)
        (elim (Bool-cases (ltb (length (m ∷ ms)) page_size)) [
          | inl e ↦ rw (e, short e, append-nil (done ++ m ∷ ms)) refl
          | inr e ↦ rw e (long e)
        ])

  last_page :
      (fuel : ℕ) (start : Bytes) (done : List Message)
      → client.x_range_n key start page_size ≡ some []
      → x_range_all client (suc fuel) key start done ≡ some (done ++ [])
  unfolding x_range_all
  last_page fuel start done answer = rw (answer, x_range_all) (ap some (sym (append-nil done)))

  -- `n + 1` is the size of a page.
  module _ (n : ℕ) (size : page_size ≡ suc n) (serves : Serves) where
    split_page :
        (m : Message) (ms done : List Message)
        → done ++ (m ∷ take n ms ++ drop n ms) ≡ done ++ m ∷ ms
    split_page m ms done = ap (λ r. done ++ m ∷ r) (take-append-drop n ms)

    served :
        (start : Bytes) (rest : List Message)
        → Starts start rest
        → client.x_range_n key start page_size ≡ some (take (suc n) rest)
    served start rest from = from page_size ∙ ap (λ k. some (take k rest)) size

    x_range_all-behind :
        (fuel : ℕ) (start : Bytes) (done rest : List Message)
        → msgs ≡ done ++ rest
        → Starts start rest
        → length rest < fuel * suc n
        → x_range_all client fuel key start done ≡ some (done ++ rest)
    x_range_all-behind zero start done rest whole from h = ground (arith, h)
    x_range_all-behind (suc fuel) start done [] whole from h =
        last_page fuel start done (served start [] from)
    x_range_all-behind (suc fuel) start done (m ∷ ms) whole from h =
        page_step fuel start done m (take n ms) (drop n ms) (served start (m ∷ ms) from)
          (λ e.
            short-drop (suc n) (m ∷ ms) (subst (λ k. ltb (length (m ∷ take n ms)) k ≡ true) size e))
          (λ e.
            x_range_all-behind fuel (next_start start (m ∷ take n ms)) (done ++ m ∷ take n ms)
              (drop n ms) regrouped next
              (omega (
                arith,
                length-drop n ms,
                h,
                full-take (suc n) (m ∷ ms)
                    (subst (λ k. ltb (length (m ∷ take n ms)) k ≡ false) size e),
              )))
        ∙ ap some (append_assoc done (m ∷ take n ms) (drop n ms))
        ∙ ap some (split_page m ms done)
      where
        parts : msgs ≡ done ++ (m ∷ take n ms ++ drop n ms)
        parts = whole ∙ sym (split_page m ms done)

        regrouped : msgs ≡ done ++ m ∷ take n ms ++ drop n ms
        regrouped = parts ∙ sym (append_assoc done (m ∷ take n ms) (drop n ms))

        next : Starts (next_start start (m ∷ take n ms)) (drop n ms)
        next = Starts-page start done m (take n ms) (drop n ms) serves parts

-- With more pages than the stream fills, xRangeAll gives the whole stream in its order, if the server
-- answers XRANGE as documented: from the start with the first messages of the stream, and behind the
-- identifier of a message of it with the first of those that follow that message.
pub x_range_all-whole :
    {Score : Type 0} (client : Client Score) (key : Bytes) (msgs : List Message) (fuel : ℕ)
    → Serves client key msgs
    → length msgs < fuel * page_size
    → x_range_all client fuel key (codes "-") [] ≡ some msgs
x_range_all-whole client key msgs fuel serves h =
    x_range_all-behind client key msgs 999 refl serves fuel (codes "-") [] msgs refl serves.0 h
