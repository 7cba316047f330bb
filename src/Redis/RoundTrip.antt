-- ===== src/Redis/RoundTrip.antt =====
-- A dump that is restored issues the commands that rebuild the dumped keys.
use db_backup.Base.{
  ℕ, ◌≡◌, refl, sym, ap, ◌∙◌, Bool, true, false, List, [], ◌∷◌, ◌++◌, append_assoc, append-nil,
  Option, some, none, Bytes, ◌==◌, if◌then◌else◌, All, All-append, All-split, ◌>>=◌, subst,
}
use db_backup.Text.OneLine.{IsOneLine}
use db_backup.SortSlice.{SortSlice}
use db_backup.Redis.Data.{Reply, Command, Codec, IsLawful}
use db_backup.Redis.Dump.{write_reply}
use db_backup.Redis.Keys.{Client, read_key, DumpState, dump_key, note_key, dump_page, dump_pages}
use db_backup.Redis.Session.{
  Progress, max_token, raw_lines, parse_db_index, restore_scan, concluded, restore,
}
use db_backup.Redis.Rebuild.{rebuild}
use db_backup.Redis.Expiry.{AreReadAs, AreReadAs-append, IsInRange}
use db_backup.Redis.Replies.{IsReply, write_reply-AreReadAs}
use db_backup.Redis.Text.{
  text_of, raw_lines-text_of, IsHeader, Fits, issue, restore_scan-read, restore_scan-header,
}

-- A key with the answers of the client.
pub record KeyEntry (Score : Type 0) : Type 0 where
  pub key : Bytes
  pub reply : Reply Score
  pub ttl : ℕ

module _ {Score : Type 0} (client : Client Score) (codec : Codec Score) (sorter : SortSlice)
    (fuel : ℕ) (clock : Bytes → ℕ) (included : Bytes → Bool) where
  abbrev entry_of : Bytes → Option (Reply Score × ℕ) → List (KeyEntry Score)
  entry_of key none = []
  entry_of key (some (reply, ttl)) = record { key = key; reply = reply; ttl = ttl } ∷ []

  -- The selected keys that the client can read.
  abbrev pub entries : List Bytes → List (KeyEntry Score)
  entries [] = []
  entries (key ∷ keys) =
      (if included key then entry_of key (read_key client fuel key) else []) ++ entries keys

  abbrev pub page_entries : List (Option (List Bytes)) → List (KeyEntry Score)
  page_entries [] = []
  page_entries (none ∷ pages) = []
  page_entries (some keys ∷ pages) = entries keys ++ page_entries pages

  abbrev pub commands : List (KeyEntry Score) → List (Command Score)
  commands [] = []
  commands (e ∷ es) = rebuild sorter (clock e.key) e.key e.reply e.ttl ++ commands es

  abbrev pub IsSound : KeyEntry Score → Type 0
  IsSound e = IsReply e.reply × IsInRange (clock e.key) e.ttl

  commands-append :
      (xs ys : List (KeyEntry Score)) → commands (xs ++ ys) ≡ commands xs ++ commands ys
  commands-append [] ys = refl
  commands-append (x ∷ xs) ys =
      ap (λ r. rebuild sorter (clock x.key) x.key x.reply x.ttl ++ r) (commands-append xs ys)
      ∙ sym (append_assoc _ (commands xs) (commands ys))

  abbrev written : Bytes → Option (Reply Score × ℕ) → Option (List Bytes)
  written key none = none
  written key (some (reply, ttl)) = some (write_reply (clock key) Score codec sorter key reply ttl)

  dump_key-written :
      (key : Bytes)
      → dump_key codec sorter client fuel (clock key) key ≡ written key (read_key client fuel key)
  unfolding dump_key
  dump_key-written key = by_answer (read_key client fuel key)
    where
      by_answer :
          (o : Option (Reply Score × ℕ))
          → (o >>= λ (reply, ttl). some (write_reply (clock key) Score codec sorter key reply ttl))
            ≡ written key o
      by_answer none = refl
      by_answer (some (reply, ttl)) = refl

  abbrev noted : DumpState → Option (List Bytes) → DumpState
  noted = note_key codec sorter client fuel clock included

  more-AreReadAs :
      IsLawful Score codec
      → (key : Bytes) (d : DumpState) (cs : List (Command Score)) (wanted : Bool)
        (answer : Option (Reply Score × ℕ))
      → AreReadAs codec d.lines cs
      → All IsSound (if wanted then entry_of key answer else [])
      → AreReadAs codec
          (if wanted then noted d (written key answer) else d).lines
          (cs ++ commands (if wanted then entry_of key answer else []))
  more-AreReadAs law key d cs false answer read sound =
      subst (AreReadAs codec d.lines) (sym (append-nil cs)) read
  more-AreReadAs law key d cs true none read sound =
      subst (AreReadAs codec d.lines) (sym (append-nil cs)) read
  more-AreReadAs law key d cs true (some (reply, ttl)) read ((fine, range), _) =
      AreReadAs-append codec d.lines _ cs _ read (
        subst (AreReadAs codec _) (sym (append-nil _))
          (write_reply-AreReadAs codec (clock key) sorter key reply ttl law fine range))

  regroup :
      (xs ys : List (KeyEntry Score)) (cs : List (Command Score))
      → cs ++ commands xs ++ commands ys ≡ cs ++ commands (xs ++ ys)
  regroup xs ys cs = append_assoc cs _ _ ∙ ap (λ r. cs ++ r) (sym (commands-append xs ys))

  dump_page-AreReadAs :
      IsLawful Score codec
      → (keys : List Bytes) (d : DumpState) (cs : List (Command Score)) → AreReadAs codec d.lines cs
      → All IsSound (entries keys)
      → AreReadAs codec
          (dump_page codec sorter client fuel clock included keys d).lines
          (cs ++ commands (entries keys))
  unfolding dump_page
  dump_page-AreReadAs law [] d cs read sound =
      subst (AreReadAs codec d.lines) (sym (append-nil cs)) read
  dump_page-AreReadAs law (key ∷ keys) d cs read sound =
      let (first, rest) = All-split IsSound (now_entries key) (entries keys) sound in
      subst (AreReadAs codec _) (regroup (now_entries key) (entries keys) cs) (
        dump_page-AreReadAs law keys _ (cs ++ commands (now_entries key))
          (subst
            (λ o.
              AreReadAs codec (if included key then noted d o else d).lines
                (cs ++ commands (now_entries key)))
            (sym (dump_key-written key))
            (more-AreReadAs law key d cs (included key) (read_key client fuel key) read first))
          rest)
    where
      now_entries : Bytes → List (KeyEntry Score)
      now_entries key = if included key then entry_of key (read_key client fuel key) else []

  dump_pages-AreReadAs :
      IsLawful Score codec
      → (pages : List (Option (List Bytes))) (d : DumpState) (cs : List (Command Score))
      → AreReadAs codec d.lines cs
      → All IsSound (page_entries pages)
      → AreReadAs codec
          (dump_pages codec sorter client fuel clock included pages d).0.lines
          (cs ++ commands (page_entries pages))
  unfolding dump_pages
  dump_pages-AreReadAs law [] d cs read sound =
      subst (AreReadAs codec d.lines) (sym (append-nil cs)) read
  dump_pages-AreReadAs law (none ∷ pages) d cs read sound =
      subst (AreReadAs codec d.lines) (sym (append-nil cs)) read
  dump_pages-AreReadAs law (some keys ∷ pages) d cs read sound =
      let (first, rest) = All-split IsSound (entries keys) (page_entries pages) sound in
      subst (AreReadAs codec _) (regroup (entries keys) (page_entries pages) cs) (
        dump_pages-AreReadAs law pages _ (cs ++ commands (entries keys))
          (dump_page-AreReadAs law keys _ cs read first) rest)

  abbrev no_lines : DumpState
  no_lines = record { lines = []; scanned = 0; dumped = 0; skipped = 0 }

  -- What `Dump` prints behind its header.
  abbrev pub dumped_lines : List (Option (List Bytes)) → List Bytes
  dumped_lines pages = (dump_pages codec sorter client fuel clock included pages no_lines).0.lines

  module _ {Server : Type 0} (exec : Command Score → Server → Server × Bool) where
    -- The state in which the commands leave the server, and whether it carried out each of them.
    abbrev pub outcome : Server → List (Command Score) → Server × Bool
    outcome s cs =
        let p = issue exec codec (record { server = s; restored = 0; skipped = 0 }) cs in
        (p.server, p.skipped == 0)

    abbrev start_of : Server → Progress Server
    start_of s = record { server = s; restored = 0; skipped = 0 }

    restore_named :
        (db_name : Bytes) (db : ℕ) (text : Bytes) (s : Server)
        → parse_db_index db_name ≡ some db
        → restore exec codec true db_name text s
          ≡ concluded exec codec (restore_scan exec codec max_token (raw_lines text) (start_of s))
    unfolding restore
    restore_named db_name db text s name = rw (name, restore) refl

    AreReadAs-IsOneLine :
        (ls : List Bytes) (cs : List (Command Score)) → AreReadAs codec ls cs → All IsOneLine ls
    AreReadAs-IsOneLine [] cs h = tt
    AreReadAs-IsOneLine (l ∷ ls) [] h = absurd h
    AreReadAs-IsOneLine (l ∷ ls) (c ∷ cs) (r, h) = (r.kept.one_line, AreReadAs-IsOneLine ls cs h)

    scan_restored :
        (db_name : Bytes) (db : ℕ) (header ls : List Bytes) (cs : List (Command Score)) (s : Server)
        → parse_db_index db_name ≡ some db
        → All IsOneLine header
        → All IsHeader header
        → All Fits header
        → AreReadAs codec ls cs
        → All Fits ls
        → restore exec codec true db_name (text_of (header ++ ls)) s ≡ outcome s cs
    scan_restored db_name db header ls cs s name lines head heads read fits =
        restore_named db_name db (text_of (header ++ ls)) s name
        ∙ ap (concluded exec codec) (
            ap (λ r. restore_scan exec codec max_token r (start_of s))
              (raw_lines-text_of (header ++ ls)
                (All-append IsOneLine header ls lines (AreReadAs-IsOneLine ls cs read)))
            ∙ restore_scan-header exec codec (start_of s) header ls head heads
            ∙ restore_scan-read exec codec ls cs (start_of s) read fits)

    -- If a dump is restored into a database whose index is well formed, the server carries out
    -- exactly the commands that rebuild the keys which the dump could read, in their order, and the
    -- restore succeeds exactly if the server refuses none. The conditions: the codecs are lawful, the
    -- answers are sound, the header is ignored, and every line fits in the scanner's buffer.
    pub restore-dump_pages :
        (db_name : Bytes) (db : ℕ) (header : List Bytes) (pages : List (Option (List Bytes)))
        (s : Server)
        → IsLawful Score codec
        → parse_db_index db_name ≡ some db
        → All IsOneLine header
        → All IsHeader header
        → All Fits header
        → All IsSound (page_entries pages)
        → All Fits (dumped_lines pages)
        → restore exec codec true db_name (text_of (header ++ dumped_lines pages)) s
          ≡ outcome s (commands (page_entries pages))
    restore-dump_pages db_name db header pages s law name lines head heads sound fits =
        scan_restored db_name db header (dumped_lines pages) (commands (page_entries pages)) s name
          lines head heads (dump_pages-AreReadAs law pages no_lines [] tt sound) fits
