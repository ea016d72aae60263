-- ===== src/Server/ClientIp/Spoofed.antt =====
-- What a client writes into X-Forwarded-For does not change whom its request is attributed to.
use open_console.Prelude.{
  ◌++◌, All, List, Text, [], ap, append_assoc, false, if◌then◌else◌, not, refl, some, sym, true,
  ◌||◌, ◌∙◌, ◌∷◌, ◌≡◌,
}
use open_console.Server.ClientIp.{
  Net, TrustedProxies, attribute_hop, client_ip, from_peer, hops_of, host_only, is_nil, reversed,
  trusts, walk,
}

trusts-is_nil :
    (n : Net) (t : TrustedProxies n) (peer : n.Addr) → trusts n t peer ≡ true → is_nil n t ≡ false
unfolding trusts
trusts-is_nil n [] peer h = cc h
trusts-is_nil n (p ∷ ps) peer h = refl

module _ (n : Net) (t : TrustedProxies n) where
  -- The hop is the address of a proxy that the operator trusts.
  pub record IsVouched (hop : Text) : Type 0 where
    pub address : n.Addr
    pub parsed : n.parse_addr (host_only n hop) ≡ some address
    pub trusted : trusts n t address ≡ true

  walk-vouched :
      (peer : Text) (vouched rest : List Text)
      → All IsVouched vouched
      → walk n t peer (vouched ++ rest) ≡ walk n t peer rest
  unfolding walk
  walk-vouched peer [] rest h = refl
  walk-vouched peer (hop ∷ hops) rest h =
      ap (λ a. attribute_hop n t a peer (walk n t peer (hops ++ rest))) h.0.parsed
      ∙ ap (λ b. if not b then n.to_text h.0.address else walk n t peer (hops ++ rest)) h.0.trusted
      ∙ walk-vouched peer hops rest h.1

  reversed-append : (xs done : List Text) → reversed n xs done ≡ reversed n xs [] ++ done
  reversed-append [] done = refl
  reversed-append (x ∷ xs) done =
      reversed-append xs (x ∷ done)
      ∙ sym (append_assoc (reversed n xs []) (x ∷ []) done)
      ∙ ap (λ l. l ++ done) (sym (reversed-append xs (x ∷ [])))

  reversed-after :
      (xs ys done : List Text) → reversed n (xs ++ ys) done ≡ reversed n ys (reversed n xs done)
  reversed-after [] ys done = refl
  reversed-after (x ∷ xs) ys done = reversed-after xs ys (x ∷ done)

  All-reversed :
      (P : Text → Type 0) (xs done : List Text) → All P xs → All P done → All P (reversed n xs done)
  All-reversed P [] done h k = k
  All-reversed P (x ∷ xs) done h k = All-reversed P xs (x ∷ done) h.1 (h.0, k)

  walk-hop :
      (peer hop : Text) (address : n.Addr) (rest : List Text)
      → n.parse_addr (host_only n hop) ≡ some address
      → trusts n t address ≡ false
      → walk n t peer (hop ∷ rest) ≡ n.to_text address
  unfolding walk
  walk-hop peer hop address rest e untrusted =
      ap (λ a. attribute_hop n t a peer (walk n t peer rest)) e
      ∙ ap (λ b. if not b then n.to_text address else walk n t peer rest) untrusted

  -- When a request comes through proxies that the operator trusts, each of which appended the
  -- address that it got it from, and the first of these addresses is no such proxy, the request is
  -- attributed to it, whatever the client had written into the header before.
  pub client_ip-spoofed :
      (remote hop : Text) (forwarded spoofed vouched : List Text) (peer address : n.Addr)
      → n.parse_addr (host_only n remote) ≡ some peer
      → trusts n t peer ≡ true
      → hops_of forwarded ≡ spoofed ++ hop ∷ vouched
      → n.parse_addr (host_only n hop) ≡ some address
      → trusts n t address ≡ false
      → All IsVouched vouched
      → client_ip n t remote forwarded ≡ n.to_text address
  unfolding client_ip
  client_ip-spoofed remote hop forwarded spoofed vouched peer address p trusted hops a untrusted v =
      let after = reversed n vouched [] in
      let before = reversed n spoofed [] in
      let walked = walk n t (n.to_text peer) in
      let order : reversed n (spoofed ++ hop ∷ vouched) [] ≡ after ++ (hop ∷ before) =
        reversed-after spoofed (hop ∷ vouched) [] ∙ reversed-append vouched (hop ∷ before) in
      ap (λ o. from_peer n t o remote forwarded) p
      ∙ ap
          (λ b.
            if b || not (trusts n t peer)
            then n.to_text peer
            else walked (reversed n (hops_of forwarded) []))
          (trusts-is_nil n t peer trusted)
      ∙ ap (λ b. if not b then n.to_text peer else walked (reversed n (hops_of forwarded) []))
          trusted
      ∙ ap (λ l. walked (reversed n l [])) hops
      ∙ ap walked order
      ∙ walk-vouched (n.to_text peer) after (hop ∷ before) (All-reversed IsVouched vouched [] v tt)
      ∙ walk-hop (n.to_text peer) hop address before a untrusted
