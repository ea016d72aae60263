-- ===== src/Server/ClientIp.antt =====
-- internal/server/clientip.go: whom a request is attributed to.
--
-- Go's net and net/netip are a parameter: reading and printing an address, whether a network
-- contains one, and net.SplitHostPort, which has no result where it returns an error.
pub mod Spoofed
use open_console.Prelude.{
  ◌&&◌, ◌++◌, ◌==◌, Bool, List, Option, Text, [], false, if◌then◌else◌, leb, none, not, some, true,
  ◌||◌, ℕ, ◌∷◌,
}

pub record Net : Type 1 where
  pub Addr : Type 0
  pub Prefix : Type 0
  pub parse_addr : Text → Option Addr
  pub parse_prefix : Text → Option Prefix
  pub prefix_of : Addr → Prefix
  pub contains : Prefix → Addr → Bool
  pub to_text : Addr → Text
  pub split_host_port : Text → Option Text

-- `unicode.IsSpace`
unfoldable pub is_space : ℕ → Bool
is_space c =
    (leb 9 c && leb c 13)
    || (c == 0x20
        || (c == 0x85
            || (c == 0xa0
                || (c == 0x1680
                    || ((leb 0x2000 c && leb c 0x200a)
                        || (c == 0x2028
                            || (c == 0x2029 || (c == 0x202f || (c == 0x205f || c == 0x3000)))))))))

abbrev pub is_bracket : ℕ → Bool
is_bracket c = c == b'[' || c == b']'

-- `strings.TrimFunc`, from both ends.
abbrev pub trim_start : (ℕ → Bool) → Text → Text
trim_start drops [] = []
trim_start drops (c ∷ cs) = if drops c then trim_start drops cs else c ∷ cs

abbrev pub keep_end : (ℕ → Bool) → ℕ → Text → Text
keep_end drops c [] = if drops c then [] else c ∷ []
keep_end drops c (d ∷ ds) = c ∷ d ∷ ds

abbrev pub trim_end : (ℕ → Bool) → Text → Text
trim_end drops [] = []
trim_end drops (c ∷ cs) = keep_end drops c (trim_end drops cs)

abbrev pub trim_with : (ℕ → Bool) → Text → Text
trim_with drops s = trim_end drops (trim_start drops s)

-- `strings.TrimSpace`
unfoldable pub trim_space : Text → Text
unfolding is_space
trim_space s = trim_with is_space s

abbrev pub cons_head : ℕ → List Text → List Text
cons_head c [] = (c ∷ []) ∷ []
cons_head c (f ∷ fs) = (c ∷ f) ∷ fs

-- `strings.Split(h, ",")`
unfoldable pub split_commas : Text → List Text
split_commas [] = [] ∷ []
split_commas (c ∷ cs) = if c == b',' then [] ∷ split_commas cs else cons_head c (split_commas cs)

abbrev pub unless_nil : Text → List Text → List Text
unless_nil [] rest = rest
unless_nil (c ∷ cs) rest = (c ∷ cs) ∷ rest

unfoldable pub trimmed_parts : List Text → List Text
unfolding trim_space
trimmed_parts [] = []
trimmed_parts (part ∷ parts) = unless_nil (trim_space part) (trimmed_parts parts)

-- The loop that flattens the header's values.
unfoldable pub hops_of : List Text → List Text
unfolding trimmed_parts split_commas
hops_of [] = []
hops_of (h ∷ hs) = trimmed_parts (split_commas h) ++ hops_of hs

module _ (n : Net) where
  open n use {Addr, Prefix, parse_addr, parse_prefix, prefix_of, contains, to_text, split_host_port}

  -- `TrustedProxies`
  abbrev pub TrustedProxies : Type 0
  TrustedProxies = List Prefix

  abbrev pub network : Option Prefix → Option Addr → Option Prefix
  network (some p) a = some p
  network none (some a) = some (prefix_of a)
  network none none = none

  abbrev pub cons_network : Option Prefix → Option TrustedProxies → Option TrustedProxies
  cons_network none rest = none
  cons_network (some p) none = none
  cons_network (some p) (some ps) = some (p ∷ ps)

  -- The loop of ParseTrustedProxies; `none` is its error.
  unfoldable pub networks : List Text → Option TrustedProxies
  networks [] = some []
  networks (entry ∷ entries) =
      cons_network (network (parse_prefix entry) (parse_addr entry)) (networks entries)

  unfoldable pub parse_trusted_proxies : Text → Option TrustedProxies
  unfolding networks trimmed_parts split_commas
  parse_trusted_proxies spec = networks (trimmed_parts (split_commas (trim_space spec)))

  unfoldable pub trusts : TrustedProxies → Addr → Bool
  trusts [] a = false
  trusts (p ∷ ps) a = contains p a || trusts ps a

  abbrev pub host_or : Option Text → Text → Text
  host_or (some h) s = h
  host_or none s = trim_with is_bracket s

  unfoldable pub host_only : Text → Text
  unfolding trim_space
  host_only s = host_or (split_host_port (trim_space s)) (trim_space s)

  -- One round of the loop over the hops, the last one first: a hop that is no address ends it.
  abbrev pub attribute_hop : TrustedProxies → Option Addr → Text → Text → Text
  attribute_hop t none peer rest = peer
  attribute_hop t (some a) peer rest = if not (trusts t a) then to_text a else rest

  unfoldable pub walk : TrustedProxies → Text → List Text → Text
  unfolding host_only trusts
  walk t peer [] = peer
  walk t peer (hop ∷ hops) = attribute_hop t (parse_addr (host_only hop)) peer (walk t peer hops)

  abbrev pub is_nil : TrustedProxies → Bool
  is_nil [] = true
  is_nil (p ∷ ps) = false

  abbrev pub reversed : List Text → List Text → List Text
  reversed [] done = done
  reversed (x ∷ xs) done = reversed xs (x ∷ done)

  abbrev pub from_peer : TrustedProxies → Option Addr → Text → List Text → Text
  from_peer t none remote forwarded = host_only remote
  from_peer t (some peer) remote forwarded =
      if is_nil t || not (trusts t peer)
      then to_text peer
      else walk t (to_text peer) (reversed (hops_of forwarded) [])

  -- `ClientIP`, on the socket's address and the values of X-Forwarded-For.
  unfoldable pub client_ip : TrustedProxies → Text → List Text → Text
  unfolding walk host_only hops_of trusts
  client_ip t remote forwarded = from_peer t (parse_addr (host_only remote)) remote forwarded
