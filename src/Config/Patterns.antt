-- ===== src/Config/Patterns.antt =====
-- Which hosts are bypassed (util/config.go and proxy/proxy.go).
use spoof_dpi_turkiye.Prelude.{
  ◌≡◌, refl, Bool, true, false, ◌||◌, List, [], ◌∷◌, Option, none, some, Result, ok, err, ◌>>=◌,
  subst, Bytes,
}
use spoof_dpi_turkiye.Proxy.{any_match, pattern_matches}
use spoof_dpi_turkiye.Args.{Args}
use spoof_dpi_turkiye.Config.{
  Config, ConfigError, compile_one, compile_all, compile_allowed_patterns, config_of, load,
  new_proxy,
}

module _ (compile : Bytes → Option (Bytes → Bool)) where
  -- A pattern that compiles and matches.
  abbrev pub accepts : Option (Bytes → Bool) → Bytes → Bool
  accepts none b = false
  accepts (some re) b = re b

  abbrev pub accepted : List Bytes → Bytes → Bool
  accepted [] b = false
  accepted (pattern ∷ patterns) b = accepts (compile pattern) b || accepted patterns b

  -- What the options ask for: without a pattern every host is bypassed.
  abbrev pub is_bypassed : List Bytes → Bytes → Bool
  is_bypassed [] b = true
  is_bypassed (pattern ∷ patterns) b = accepted (pattern ∷ patterns) b

  -- What is said of a result holds if it is one.
  abbrev Matches : List Bytes → Bytes → Result ConfigError (List (Bytes → Bool)) → Type 0
  Matches patterns b (err e) = true ≡ true
  Matches patterns b (ok out) = any_match out b ≡ accepted patterns b

  compile_one-Matches :
      (pattern : Bytes) (patterns : List Bytes) (b : Bytes) (o : Option (Bytes → Bool))
      (r : Result ConfigError (List (Bytes → Bool)))
      → compile pattern ≡ o
      → Matches patterns b r
      → Matches (pattern ∷ patterns) b (compile_one compile pattern o r)
  unfolding compile_one any_match
  compile_one-Matches pattern patterns b none r e h = refl
  compile_one-Matches pattern patterns b (some re) (err x) e h = refl
  compile_one-Matches pattern patterns b (some re) (ok out) e h = rw (e, h) refl

  compile_all-Matches :
      (patterns : List Bytes) (b : Bytes) → Matches patterns b (compile_all compile patterns)
  unfolding compile_all any_match
  compile_all-Matches [] b = refl
  compile_all-Matches (pattern ∷ patterns) b =
      compile_one-Matches pattern patterns b (compile pattern) (compile_all compile patterns) refl
        (compile_all-Matches patterns b)

  abbrev Allows : List Bytes → Bytes → Result ConfigError (Option (List (Bytes → Bool))) → Type 0
  Allows patterns b (err e) = true ≡ true
  Allows patterns b (ok none) = true ≡ is_bypassed patterns b
  Allows patterns b (ok (some out)) = any_match out b ≡ is_bypassed patterns b

  abbrev Bypasses : List Bytes → Bytes → Result ConfigError Config → Type 0
  Bypasses patterns b (err e) = true ≡ true
  Bypasses patterns b (ok c) = pattern_matches (new_proxy c) b ≡ is_bypassed patterns b

  compile_allowed_patterns-Allows :
      (patterns : List Bytes) (b : Bytes)
      → Allows patterns b (compile_allowed_patterns compile patterns)
  unfolding compile_allowed_patterns
  compile_allowed_patterns-Allows [] b = refl
  compile_allowed_patterns-Allows (pattern ∷ patterns) b =
      go (compile_all compile (pattern ∷ patterns)) (compile_all-Matches (pattern ∷ patterns) b)
    where
      go :
          (r : Result ConfigError (List (Bytes → Bool)))
          → Matches (pattern ∷ patterns) b r
          → Allows (pattern ∷ patterns) b (r >>= (λ out. ok (some out)))
      go (err e) h = refl
      go (ok out) h = h

  load-Bypasses :
      (args : Args) (host : Bytes) → Bypasses args.allowed_pattern host (load compile args)
  unfolding load pattern_matches new_proxy
  load-Bypasses args host =
      go (compile_allowed_patterns compile args.allowed_pattern)
        (compile_allowed_patterns-Allows args.allowed_pattern host)
    where
      go :
          (r : Result ConfigError (Option (List (Bytes → Bool))))
          → Allows args.allowed_pattern host r
          → Bypasses args.allowed_pattern host (r >>= (λ patterns. ok (config_of args patterns)))
      go (err e) h = refl
      go (ok none) h = h
      go (ok (some out)) h = h

  -- If the arguments load, the proxy that is made from them bypasses a host exactly if no pattern
  -- was given or one of the given patterns matches it.
  pub load-pattern_matches :
      (args : Args) (c : Config) (host : Bytes)
      → load compile args ≡ ok c
      → pattern_matches (new_proxy c) host ≡ is_bypassed args.allowed_pattern host
  load-pattern_matches args c host h =
      subst (Bypasses args.allowed_pattern host) h (load-Bypasses args host)
