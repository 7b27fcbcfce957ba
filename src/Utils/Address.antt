-- ===== src/Utils/Address.antt =====
-- internal/utils/main.go: the subdomain of a host, and the IP of a remote address.
use mmar.Prelude.Io.{cut_at, cut_at_delimiter}
use mmar.Prelude.Text.{join, to_lower, Lacks, split-part}
use mmar.Prelude.{
  ℕ, ◌≡◌, ◌≢◌, refl, Bool, false, not, ◌&&◌, Bytes, [], ◌∷◌, ◌++◌, Option, none, some, arith, All,
  eqn, nat_eq, contains, if◌then◌else◌,
}
use mmar.Utils.{extract_subdomain}

lacks_both : Bytes → Bool
lacks_both s = not (contains s b'[') && not (contains s b']')

-- `net.SplitHostPort` of an address that does not begin with a bracket: one colon, no brackets.
plain_host : Bytes → Option Bytes
unfolding lacks_both
plain_host s =
    let (found, host, port) = cut_at b':' s in
    if found && not (contains port b':') && lacks_both host && lacks_both port
    then some host
    else none

behind_bracket : Bytes → Bytes → Option Bytes
behind_bracket host [] = none
behind_bracket host (c ∷ port) =
    if eqn c b':'
      && not (contains port b':')
      && not (contains host b'[')
      && not (contains port b'[')
      && not (contains port b']')
    then some host
    else none

-- `net.SplitHostPort` behind an opening bracket: the host ends at the first closing one, and the
-- last colon stands right behind that.
bracketed_host : Bytes → Option Bytes
unfolding behind_bracket
bracketed_host s =
    let (found, host, after) = cut_at b']' s in if found then behind_bracket host after else none

split_host : Bytes → Option Bytes
unfolding plain_host bracketed_host
split_host [] = none
split_host (c ∷ s) = if eqn c b'[' then bracketed_host s else plain_host (c ∷ s)

host_or_empty : Option Bytes → Bytes
host_or_empty none = []
host_or_empty (some host) = host

unfoldable pub extract_ip : Bytes → Bytes
unfolding split_host host_or_empty
extract_ip remote_addr = host_or_empty (split_host remote_addr)

-- A byte that `net` gives no meaning of its own in a host or a port.
abbrev IsPlain : ℕ → Type 0
IsPlain c = (c ≢ b':') × (c ≢ b'[') × (c ≢ b']')

abbrev IsV6 : ℕ → Type 0
IsV6 c = (c ≢ b'[') × (c ≢ b']')

-- The subdomain of a host is what stands before its first dot, in lower case.
pub extract_subdomain_lem :
    (name rest : Bytes) → Lacks b'.' name → extract_subdomain (name ++ b'.' ∷ rest) ≡ to_lower name
unfolding extract_subdomain join
extract_subdomain_lem name rest h = rw (split-part b'.' name rest h)

contains-plain : (s : Bytes) (d : ℕ) → All (λ c. c ≢ d) s → contains s d ≡ false
unfolding contains
contains-plain [] d h = refl
contains-plain (c ∷ s) d h = ground (arith, contains-plain s d h.1)

plain_parts :
    (s : Bytes)
    → All IsPlain s
    → All (λ c. c ≢ b':') s
      × (contains s b':' ≡ false)
      × (contains s b'[' ≡ false)
      × (contains s b']' ≡ false)
unfolding contains
plain_parts [] h = (tt, refl, refl, refl)
plain_parts (c ∷ s) h =
    let (p0, p1, p2, p3) = plain_parts s h.1 in
    ((h.0.0, p0), ground arith, ground arith, ground arith)

split_host-plain :
    (host port : Bytes)
    → All IsPlain host
    → All IsPlain port
    → split_host (host ++ b':' ∷ port) ≡ plain_host (host ++ b':' ∷ port)
unfolding split_host
split_host-plain [] port h k = refl
split_host-plain (c ∷ host) port h k = ground arith

-- The IP of `host:port` is the host, when neither part has a colon or a bracket.
pub extract_ip-plain :
    (host port : Bytes)
    → All IsPlain host
    → All IsPlain port
    → extract_ip (host ++ b':' ∷ port) ≡ host
unfolding extract_ip
extract_ip-plain host port h k =
    let (h0, h1, h2, h3) = plain_parts host h in
    let (k0, k1, k2, k3) = plain_parts port k in
    rw (
      split_host-plain host port h k,
      plain_host,
      cut_at_delimiter b':' host port h0,
      lacks_both,
      k1,
      h2,
      h3,
      k2,
      k3,
    )

-- The IP of `[host]:port` is the host, colons and all, when the host has no bracket and the port
-- neither colon nor bracket.
pub extract_ip-bracketed :
    (host port : Bytes)
    → All IsV6 host
    → All IsPlain port
    → extract_ip (b'[' ∷ (host ++ b']' ∷ b':' ∷ port)) ≡ host
unfolding extract_ip
extract_ip-bracketed host port h k =
    let (k0, k1, k2, k3) = plain_parts port k in
    ground (
      arith,
      cut_at_delimiter b']' host (b':' ∷ port) (close host h),
      k1,
      k2,
      k3,
      contains-plain host b'[' (opening host h),
    )
  where
    close : (s : Bytes) → All IsV6 s → All (λ c. c ≢ b']') s
    close [] h = tt
    close (c ∷ s) h = (h.0.1, close s h.1)

    opening : (s : Bytes) → All IsV6 s → All (λ c. c ≢ b'[') s
    opening [] h = tt
    opening (c ∷ s) h = (h.0.0, opening s h.1)
