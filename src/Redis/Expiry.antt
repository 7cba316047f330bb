-- ===== src/Redis/Expiry.antt =====
-- Lines that are read as commands, and those that `writeKeyTTL` prints.
use db_backup.Base.{
  ℕ, ◌+◌, ◌*◌, ◌/◌, ◌^◌, ◌<◌, ◌≡◌, ◌≢◌, refl, sym, ◌∙◌, true, List, [], ◌∷◌, ◌++◌, Bytes, codes,
  ltb, All-intro, All_get, arith, pos, wrap64, bytes_eq, Bool-cases, inl, inr,
}
use db_backup.Text.{to_upper, upper, is_digit}
use db_backup.Clock.{decimal}
use db_backup.Clock.ReadBack.{atoi-decimal, decimal-IsDigits, decimal-filled}
use db_backup.Redis.Args.{quote_redis, unquote_redis_arg}
use db_backup.Redis.Tokens.{
  is_plain, IsPlain, unquote_redis_arg-quote_redis, unquote_redis_arg-plain,
}
use db_backup.Redis.Lines.{IsArg, quote_redis-IsArg, plain-IsArg}
use db_backup.Redis.Reads.{IsReadAs, line-IsReadAs}
use db_backup.Redis.Data.{now_plus, unix_milli, Command, expire_at, Codec}
use db_backup.Redis.Dump.{line, second, milli, write_key_ttl}
use db_backup.Redis.Restore.{restore_args, restore_expire, restore_pexpireat, duration}
use db_backup.Redis.Rebuild.{expiry, expire}

pub plain_text-IsArg : (w : Bytes) → w ≢ [] → IsPlain w → IsArg w
plain_text-IsArg [] h p = absurd (h refl)
plain_text-IsArg (c ∷ w) h p = plain-IsArg c w p

is_plain-digit : (c : ℕ) → is_digit c ≡ true → is_plain c ≡ true
unfolding is_digit
is_plain-digit c h = ground arith

pub decimal-IsPlain : (n : ℕ) → IsPlain (decimal n)
decimal-IsPlain n =
    All-intro _ (decimal n) (λ c i. is_plain-digit c (All_get _ (decimal n) (decimal-IsDigits n) i))

pub decimal-IsArg : (n : ℕ) → IsArg (decimal n)
decimal-IsArg n =
    let (d, t, e) = decimal-filled n in
    plain_text-IsArg (decimal n) (λ h. nothing d t (sym h ∙ e)) (decimal-IsPlain n)
  where
    nothing : (d : ℕ) (t : Bytes) → [] ≡ d ∷ t → ⊥
    nothing d t h = cc

pub unquote_redis_arg-decimal : (n : ℕ) → unquote_redis_arg (decimal n) ≡ decimal n
unquote_redis_arg-decimal n = unquote_redis_arg-plain (decimal n) (decimal-IsPlain n)

pub duration_small : (n unit : ℕ) → n * unit < 2 ^ 63 → duration (pos n) unit ≡ pos (n * unit)
unfolding duration wrap64
duration_small n unit h = ground arith

-- A duration of 64 bits that ends at an instant of 64 bits.
abbrev pub IsInRange : ℕ → ℕ → Type 0
IsInRange now ttl = (ttl < 2 ^ 63) × ((now + ttl) / milli < 2 ^ 63)

module _ {Score : Type 0} (codec : Codec Score) where
  -- The lines are read as the commands, one by one.
  abbrev pub AreReadAs : List Bytes → List (Command Score) → Type 0
  AreReadAs [] [] = Unit
  AreReadAs (l ∷ ls) (c ∷ cs) = IsReadAs Score codec l c × AreReadAs ls cs
  AreReadAs _ _ = ⊥

  pub AreReadAs-append :
      (ls ms : List Bytes) (cs ds : List (Command Score))
      → AreReadAs ls cs
      → AreReadAs ms ds
      → AreReadAs (ls ++ ms) (cs ++ ds)
  AreReadAs-append [] ms [] ds h k = k
  AreReadAs-append [] ms (c ∷ cs) ds h k = absurd h
  AreReadAs-append (l ∷ ls) ms [] ds h k = absurd h
  AreReadAs-append (l ∷ ls) ms (c ∷ cs) ds h k = (h.0, AreReadAs-append ls ms cs ds h.1 k)

  expire-IsReadAs :
      (key : Bytes) (sec : ℕ)
      → sec * second < 2 ^ 63
      → IsReadAs Score codec
          (line (codes "EXPIRE" ∷ quote_redis key ∷ decimal sec ∷ []))
          (expire_at key (now_plus (pos (sec * second))))
  unfolding restore_args restore_expire to_upper upper bytes_eq
  expire-IsReadAs key sec h =
      line-IsReadAs Score codec (codes "EXPIRE") (quote_redis key ∷ decimal sec ∷ []) _
        (ground arith) (quote_redis-IsArg key, (decimal-IsArg sec, tt))
        (rw
          (
            unquote_redis_arg-quote_redis key,
            unquote_redis_arg-decimal sec,
            atoi-decimal sec (omega arith),
            duration_small sec second h,
          )
          refl)

  pexpireat-IsReadAs :
      (key : Bytes) (ms : ℕ)
      → ms < 2 ^ 63
      → IsReadAs Score codec
          (line (codes "PEXPIREAT" ∷ quote_redis key ∷ decimal ms ∷ []))
          (expire_at key (unix_milli (pos ms)))
  unfolding restore_args restore_pexpireat to_upper upper bytes_eq
  pexpireat-IsReadAs key ms h =
      line-IsReadAs Score codec (codes "PEXPIREAT") (quote_redis key ∷ decimal ms ∷ []) _
        (ground arith) (quote_redis-IsArg key, (decimal-IsArg ms, tt))
        (rw (unquote_redis_arg-quote_redis key, unquote_redis_arg-decimal ms, atoi-decimal ms h)
          refl)

  pub write_key_ttl-AreReadAs :
      (now : ℕ) (key : Bytes) (ttl : ℕ)
      → IsInRange now ttl
      → AreReadAs (write_key_ttl now (quote_redis key) ttl) (expire key (expiry now ttl))
  unfolding write_key_ttl
  write_key_ttl-AreReadAs now key ttl h = elim (Bool-cases (ltb 0 (ttl / second))) [
    | inl e ↦ rw e (expire-IsReadAs key (ttl / second) (omega (arith, h)), tt)
    | inr e ↦ rw e (elim (Bool-cases (ltb 0 ttl)) [
      | inl p ↦ rw p (pexpireat-IsReadAs key ((now + ttl) / milli) h.1, tt)
      | inr p ↦ rw p tt
    ])
  ]
