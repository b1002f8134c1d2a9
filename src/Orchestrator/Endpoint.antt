-- ===== src/Orchestrator/Endpoint.antt =====
-- services/orchestrator/internal/orchestrator/manager.go: `isBlockedIP` and
-- `validateBenchmarkEndpoint`.
use quant_dominater.Base.{
  ℕ, ◌+◌, ◌*◌, ◌/◌, ◌%◌, ◌^◌, ◌≤◌, ◌<◌, String, Bool, true, false, not, ◌&&◌, ◌||◌, Option, none,
  some, List, [], ◌∷◌, ◌≡◌, ◌⊎◌, inl, inr, refl, arith, str_eq, ◌==◌, if◌then◌else◌, All,
  Bool-cases, ◌≢◌,
}
use quant_dominater.Orchestrator.Store.{Result, ok, err}

-- `net.IP`: nil, 4 bytes, or 16 bytes, as a number with the first byte on top.
pub data Ip : Type 0 where
  nil : Ip
  v4 v6 : ℕ → Ip

-- `ip.To4()`: 4 bytes, also of an address ::ffff:a.b.c.d
abbrev pub to4 : ℕ → Option ℕ
to4 n = if n / 2 ^ 32 == 65535 then some (n % 2 ^ 32) else none

-- Byte `i` of an address of 4 or 16 bytes, as net's tests read it.
abbrev pub byte4_0 : ℕ → ℕ
byte4_0 n = n / 2 ^ 24

abbrev pub byte4_1 : ℕ → ℕ
byte4_1 n = n / 2 ^ 16 % 256

abbrev pub byte4_2 : ℕ → ℕ
byte4_2 n = n / 2 ^ 8 % 256

abbrev pub byte6_0 : ℕ → ℕ
byte6_0 n = n / 2 ^ 120

abbrev pub byte6_1 : ℕ → ℕ
byte6_1 n = n / 2 ^ 112 % 256

-- `IsLoopback`, `IsLinkLocalUnicast`, `IsLinkLocalMulticast`, `IsUnspecified`, `IsMulticast` and
-- `IsPrivate`, of 4 bytes.
abbrev pub blocked4 : ℕ → Bool
blocked4 n =
    byte4_0 n == 127
    || (byte4_0 n == 169 && byte4_1 n == 254)
    || (byte4_0 n == 224 && byte4_1 n == 0 && byte4_2 n == 0)
    || n == 0
    || byte4_0 n / 16 == 14
    || (byte4_0 n == 10
        || (byte4_0 n == 172 && byte4_1 n / 16 == 1)
        || (byte4_0 n == 192 && byte4_1 n == 168))

-- The same, of 16 bytes.
abbrev pub blocked6 : ℕ → Bool
blocked6 n =
    n == 1
    || (byte6_0 n == 254 && byte6_1 n / 64 == 2)
    || (byte6_0 n == 255 && byte6_1 n % 16 == 2)
    || n == 0
    || byte6_0 n == 255
    || byte6_0 n / 2 == 126

-- `isBlockedIP`
unfoldable pub is_blocked_ip : Ip → Bool
is_blocked_ip nil = true
is_blocked_ip (v4 n) = blocked4 n
is_blocked_ip (v6 n) = elim (to4 n) [ some k ↦ blocked4 k | none ↦ blocked6 n ]

-- The block of the addresses whose first `32 - k` bits are those of `base`, for 2^k of them.
abbrev pub In : ℕ → ℕ → ℕ → Type 0
In base size n = (base ≤ n) × (n < base + size)

-- The ranges that the comment on `isBlockedIP` lists: 127/8, 169.254/16, 0.0.0.0, 224/4 and 10/8,
-- 172.16/12, 192.168/16.
abbrev pub Internal4 : ℕ → Type 0
Internal4 n =
    In (127 * 2 ^ 24) (2 ^ 24) n
    ⊎ (In (169 * 2 ^ 24 + 254 * 2 ^ 16) (2 ^ 16) n
        ⊎ ((n ≡ 0)
            ⊎ (In (224 * 2 ^ 24) (2 ^ 28) n
                ⊎ (In (10 * 2 ^ 24) (2 ^ 24) n
                    ⊎ (In (172 * 2 ^ 24 + 16 * 2 ^ 16) (2 ^ 20) n
                        ⊎ In (192 * 2 ^ 24 + 168 * 2 ^ 16) (2 ^ 16) n)))))

blocked4_sound : (n : ℕ) → n < 2 ^ 32 → blocked4 n ≡ true → Internal4 n
blocked4_sound n h b = ground arith

blocked4_complete : (n : ℕ) → n < 2 ^ 32 → Internal4 n → blocked4 n ≡ true
blocked4_complete n h b = ground arith

-- The same of 16 bytes: ::1, ::, fe80::/10, ff00::/8 and fc00::/7.
abbrev pub Internal6 : ℕ → Type 0
Internal6 n =
    (n ≡ 1)
    ⊎ ((n ≡ 0)
        ⊎ (In (254 * 2 ^ 120 + 128 * 2 ^ 112) (2 ^ 118) n
            ⊎ (In (255 * 2 ^ 120) (2 ^ 120) n ⊎ In (252 * 2 ^ 120) (2 ^ 121) n)))

blocked6_complete : (n : ℕ) → n < 2 ^ 128 → Internal6 n → blocked6 n ≡ true
blocked6_complete n h b = ground arith

-- An address in no internal range; an address that maps one of 4 bytes is that one.
abbrev pub External : Ip → Type 0
External nil = ⊥
External (v4 n) = n < 2 ^ 32 → ¬ Internal4 n
External (v6 n) =
    n < 2 ^ 128
    → (n / 2 ^ 32 ≡ 65535 → ¬ Internal4 (n % 2 ^ 32)) × (n / 2 ^ 32 ≢ 65535 → ¬ Internal6 n)

is_blocked_ip-External : (ip : Ip) → is_blocked_ip ip ≡ false → External ip
unfolding is_blocked_ip
is_blocked_ip-External nil = λ h. cc
is_blocked_ip-External (v4 n) = λ h small int. cc (blocked4_complete n small int)
is_blocked_ip-External (v6 n) = elim (Bool-cases (n / 2 ^ 32 == 65535)) [
  | inl e ↦
      rw (e, is_blocked_ip)
        (λ h small. (
          λ m int. cc (blocked4_complete (n % 2 ^ 32) (omega arith) int),
          λ ne. absurd (ne (ground arith)),
        ))
  | inr e ↦
      rw (e, is_blocked_ip)
        (λ h small. (λ m. absurd (ground arith), λ ne int. cc (blocked6_complete n small int)))
]

-- What `url.Parse` finds in the text.
pub record Url : Type 0 where
  pub scheme : String
  pub hostname : String

-- The errors of `validateBenchmarkEndpoint`.
pub data Refusal : Type 0 where
  bad_url bad_scheme no_host not_listed unresolved no_addresses disallowed : Refusal

abbrev pub any_blocked : List Ip → Bool
any_blocked [] = false
any_blocked (ip ∷ ips) = if is_blocked_ip ip then true else any_blocked ips

abbrev pub check_ips : Result (List Ip) → Option Refusal
check_ips (err e) = some unresolved
check_ips (ok []) = some no_addresses
check_ips (ok (ip ∷ ips)) = if any_blocked (ip ∷ ips) then some disallowed else none

-- `strings.EqualFold` and `net.LookupIP`
module _ (equal_fold : String → String → Bool) (lookup : String → Result (List Ip)) where
  abbrev pub is_listed : String → List String → Bool
  is_listed host [] = false
  is_listed host (h ∷ hs) = if equal_fold h host then true else is_listed host hs

  -- Behind the tests of the URL; the hosts are those of the allowlist, where there is one.
  abbrev pub check_host : Option (List String) → String → Option Refusal
  check_host (some hosts) host = if is_listed host hosts then none else some not_listed
  check_host none host = check_ips (lookup host)

  -- `validateBenchmarkEndpoint`, of what `url.Parse` gave
  unfoldable pub validate_endpoint : Option (List String) → Result Url → Option Refusal
  validate_endpoint allowed (err e) = some bad_url
  validate_endpoint allowed (ok u) =
      if not (str_eq u.scheme "ws") && not (str_eq u.scheme "wss")
      then some bad_scheme
      else if str_eq u.hostname ""
      then some no_host
      else check_host allowed u.hostname

  -- A host that the allowlist names, or one whose addresses are all outside the internal ranges.
  abbrev pub Reachable : Option (List String) → String → Type 0
  Reachable (some hosts) host = is_listed host hosts ≡ true
  Reachable none host = (ips : List Ip) × (lookup host ≡ ok ips) × (ips ≢ []) × All External ips

  any_blocked-External : (ips : List Ip) → any_blocked ips ≡ false → All External ips
  any_blocked-External [] = λ h. tt
  any_blocked-External (ip ∷ ips) = elim (Bool-cases (is_blocked_ip ip)) [
    | inl e ↦ rw (e, any_blocked) (λ h. absurd cc)
    | inr e ↦ rw (e, any_blocked) (λ h. (is_blocked_ip-External ip e, any_blocked-External ips h))
  ]

  check_ips-External :
      (r : Result (List Ip))
      → check_ips r ≡ none
      → (ips : List Ip) × (r ≡ ok ips) × (ips ≢ []) × All External ips
  check_ips-External (err e) h = absurd cc
  check_ips-External (ok []) h = absurd cc
  check_ips-External (ok (ip ∷ ips)) h = elim (Bool-cases (any_blocked (ip ∷ ips))) [
    | inl e ↦ absurd (blocked (any_blocked (ip ∷ ips)) e h)
    | inr e ↦ (ip ∷ ips, refl, λ q. cc, any_blocked-External (ip ∷ ips) e)
  ]
    where
      blocked : (b : Bool) → b ≡ true → (if b then some disallowed else none) ≡ none → ⊥
      blocked true e k = cc
      blocked false e k = cc

  check_host-Reachable :
      (allowed : Option (List String)) (host : String)
      → check_host allowed host ≡ none
      → Reachable allowed host
  check_host-Reachable none host h = check_ips-External (lookup host) h
  check_host-Reachable (some hosts) host h = listed (is_listed host hosts) h
    where
      listed : (b : Bool) → (if b then none else some not_listed) ≡ none → b ≡ true
      listed true k = refl
      listed false k = absurd cc

  -- An endpoint that is accepted parses to a ws or wss URL with a host, which the operator's allowlist
  -- names, or, where there is none, which resolves to at least one address and to none in an internal
  -- range: loopback, link-local, unspecified, multicast or private, also behind an IPv6 mapping.
  pub validate_endpoint-Reachable :
      (allowed : Option (List String)) (parsed : Result Url)
      → validate_endpoint allowed parsed ≡ none
      → (u : Url) × (parsed ≡ ok u)
        × ((str_eq u.scheme "ws" ≡ true) ⊎ (str_eq u.scheme "wss" ≡ true))
        × (str_eq u.hostname "" ≡ false)
        × Reachable allowed u.hostname
  unfolding validate_endpoint
  validate_endpoint-Reachable allowed (err e) h = absurd cc
  validate_endpoint-Reachable allowed (ok u) h =
      let (s, rest) = first_test (str_eq u.scheme "ws") (str_eq u.scheme "wss") _ h in
      let (n, reach) = second_test (str_eq u.hostname "") _ rest in
      (u, refl, s, n, check_host-Reachable allowed u.hostname reach)
    where
      first_test :
          (a b : Bool) (x : Option Refusal)
          → (if not a && not b then some bad_scheme else x) ≡ none
          → ((a ≡ true) ⊎ (b ≡ true)) × (x ≡ none)
      first_test true b x k = (inl refl, k)
      first_test false true x k = (inr refl, k)
      first_test false false x k = absurd cc

      second_test :
          (a : Bool) (x : Option Refusal)
          → (if a then some no_host else x) ≡ none
          → (a ≡ false) × (x ≡ none)
      second_test true x k = absurd cc
      second_test false x k = (refl, k)
