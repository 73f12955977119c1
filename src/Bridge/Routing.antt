-- ===== src/Bridge/Routing.antt =====
-- Which peers a packet from the tunnel device goes to (handleVeth of pkg/bridge/bridge.go).
use ptun.Base.{
  ◌≤◌, ◌≡◌, refl, ◌↔◌, ◌⊎◌, inl, inr, true, ◌||◌, ◌/◌, ℕ, Bool, List, [], ◌∷◌, ok, map, length,
  arith, Bool-cases,
}
use mathlib.Core.Path.{subst, sym}
use ptun.Network.{Ip, IpNet, contains, reparse, is_broadcast, Slice, contents, Parsed, parse_packet}
use ptun.Network.Laws.{is_broadcast_v4, contains-reparse, parse_packet_total}
use ptun.Bridge.{
  Peer, Bridge, Error, any_contains, has_ip, all_peers, keep_with_ip, targets, handle_veth,
}

-- `p` is one of the peers.
abbrev pub In : Peer → List Peer → Type 0
In p [] = ⊥
In p (q ∷ qs) = (q ≡ p) ⊎ In p qs

In-keep_with_ip :
    (ip : Ip) (p : Peer) (ps : List Peer)
    → In p (keep_with_ip ip ps) ↔ In p ps × (has_ip p ip ≡ true)
In-keep_with_ip ip p [] = (λ h. absurd h, λ h. absurd h.0)
In-keep_with_ip ip p (q ∷ ps) = elim (Bool-cases (has_ip q ip)) [
  | inl e ↦ rw e (
    λ h. elim h [
      | inl s ↦ (inl s, subst (λ x. has_ip x ip ≡ true) s e)
      | inr m ↦ let r = (In-keep_with_ip ip p ps).0 m in (inr r.0, r.1)
    ],
    λ h. elim h.0 [ inl s ↦ inl s | inr m ↦ inr ((In-keep_with_ip ip p ps).1 (m, h.1)) ],
  )
  | inr e ↦ rw e (
    λ h. let r = (In-keep_with_ip ip p ps).0 h in (inr r.0, r.1),
    λ h. elim h.0 [
      | inl s ↦ cc (e, subst (λ x. has_ip x ip ≡ true) (sym s) h.1)
      | inr m ↦ (In-keep_with_ip ip p ps).1 (m, h.1)
    ],
  )
]

-- A packet to a broadcast address goes to every peer, any other to those that have its destination.
In-targets :
    (dst : Ip) (p : Peer) (b : Bridge)
    → In p (targets dst b)
      ↔ In p (all_peers b) × ((is_broadcast dst ≡ true) ⊎ (has_ip p dst ≡ true))
unfolding targets
In-targets dst p b = elim (Bool-cases (is_broadcast dst)) [
  | inl e ↦ rw e (λ h. (h, inl refl), λ h. h.0)
  | inr e ↦ rw e (
    λ h. let r = (In-keep_with_ip dst p (all_peers b)).0 h in (r.0, inr r.1),
    λ h. (In-keep_with_ip dst p (all_peers b)).1 (h.0, elim h.1 [ inl x ↦ cc | inr y ↦ y ]),
  )
]

any_contains-reparse :
    (ns : List IpNet) (ip : Ip)
    → (length ip ≡ 4) ⊎ (length ip ≡ 16)
    → any_contains ns (reparse ip) ≡ any_contains ns ip
unfolding any_contains
any_contains-reparse [] ip h = refl
any_contains-reparse (n ∷ ns) ip h =
    rw (contains-reparse n ip h) (rw (any_contains-reparse ns ip h))

-- HasIP, which parses the address from its text, decides the networks of the address itself.
pub has_ip-any_contains :
    (p : Peer) (ip : Ip)
    → (length ip ≡ 4) ⊎ (length ip ≡ 16)
    → has_ip p ip ≡ any_contains p.ips ip || any_contains p.routes ip
unfolding has_ip
has_ip-any_contains p ip h =
    rw (any_contains-reparse p.ips ip h) (rw (any_contains-reparse p.routes ip h) (ground arith))

-- One of the networks holds the address.
abbrev pub InNets : Ip → List IpNet → Type 0
InNets ip [] = ⊥
InNets ip (n ∷ ns) = (contains n ip ≡ true) ⊎ InNets ip ns

any_contains-InNets : (ns : List IpNet) (ip : Ip) → any_contains ns ip ≡ true ↔ InNets ip ns
unfolding any_contains
any_contains-InNets [] ip = (λ e. cc e, λ h. absurd h)
any_contains-InNets (n ∷ ns) ip = elim (Bool-cases (contains n ip)) [
  | inl e ↦ (λ h. inl e, λ h. rw e refl)
  | inr e ↦ (
    λ h. inr ((any_contains-InNets ns ip).0 (rw e at h)),
    λ h. elim h [ inl x ↦ cc | inr m ↦ rw e ((any_contains-InNets ns ip).1 m) ],
  )
]

or-cases : (a b : Bool) → (a || b) ≡ true ↔ (a ≡ true) ⊎ (b ≡ true)
or-cases a b = (λ e. ground arith, λ e. ground arith)

has_ip-InNets :
    (p : Peer) (ip : Ip)
    → (length ip ≡ 4) ⊎ (length ip ≡ 16)
    → has_ip p ip ≡ true ↔ InNets ip p.ips ⊎ InNets ip p.routes
has_ip-InNets p ip h = rw (has_ip-any_contains p ip h) (
  λ e. elim ((or-cases (any_contains p.ips ip) (any_contains p.routes ip)).0 e) [
    | inl x ↦ inl ((any_contains-InNets p.ips ip).0 x)
    | inr x ↦ inr ((any_contains-InNets p.routes ip).0 x)
  ],
  λ e. (or-cases (any_contains p.ips ip) (any_contains p.routes ip)).1 (elim e [
    | inl x ↦ inl ((any_contains-InNets p.ips ip).1 x)
    | inr x ↦ inr ((any_contains-InNets p.routes ip).1 x)
  ]),
)

-- A packet to an IPv4 address goes to every peer if the address is multicast or ends in 255; else to
-- exactly those peers of which one of the networks or one of the routes holds the address.
pub targets-InNets :
    (a b c d : ℕ) (p : Peer) (bridge : Bridge)
    → let dst = a ∷ b ∷ c ∷ d ∷ [] in
      In p (targets dst bridge)
      ↔ In p (all_peers bridge)
        × (((a / 16 ≡ 14) ⊎ (d ≡ 255)) ⊎ (InNets dst p.ips ⊎ InNets dst p.routes))
targets-InNets a b c d p bridge =
    let dst = a ∷ b ∷ c ∷ d ∷ [] in
    let wide = is_broadcast_v4 a b c d in
    let own = has_ip-InNets p dst (inl refl) in
    let both = In-targets dst p bridge in
    (
      λ h. let r = both.0 h in (r.0, elim r.1 [ inl x ↦ inl (wide.0 x) | inr x ↦ inr (own.0 x) ]),
      λ h. both.1 (h.0, elim h.1 [ inl x ↦ inl (wide.1 x) | inr x ↦ inr (own.1 x) ]),
    )

-- On a buffer of the pool handleVeth does not panic, and writes the whole packet, unchanged, to the
-- targets of its destination.
pub handle_veth_total :
    (s : Slice) (b : Bridge)
    → 40 ≤ length s.backing
    → (q : Parsed) × (parse_packet {E = Error} s ≡ ok q)
      × (handle_veth s b ≡ ok (map (λ p. (p, contents s)) (targets q.dst b)))
unfolding handle_veth
handle_veth_total s b h = let r = parse_packet_total {E = Error} s h in (r.0, r.1, rw (r.1))
