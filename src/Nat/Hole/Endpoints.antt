-- ===== src/Nat/Hole/Endpoints.antt =====
-- genEndpoint and RandomOne of pkg/nat/nat.go and pkg/nat/tools.go: the addresses that are probed.
use native.Mathlib.Nat.{mod-lt}
use mathlib.Core.Option.{some-injective}
use ptun.Network.{Ip}
use ptun.Nat.Analyze.{UdpAddr, Resource}
use ptun.Nat.Ports.{
  no_repeat_rand_ints, IsDistinct, InRange, lower, distance, no_repeat_rand_ints_sound,
}
use ptun.Nat.Hole.{random_one, add_ports, remote_addrs}
use ptun.Base.{
  ℕ, suc, ◌≡◌, refl, ap, inl, inr, false, List, [], ◌∷◌, ◌++◌, map, Option, some, length, arith,
  ltb, if◌then◌else◌, min, Bool-cases, Option-cases, append_assoc, append-nil, ◌%◌, Result, ok,
  panics, sym, ◌∙◌, get_elem?, get_elem?-lt, All,
}

-- An address whose IP is that of one of the mapped addresses.
abbrev pub HasMappedIp : List UdpAddr → Ip → Type 0
HasMappedIp mapped ip = (i : ℕ) × (get_elem? (map (λ a. a.ip) mapped) i ≡ some ip)

random_one_ok :
    {A : Type 0} (n : ℕ) (x : A) (xs : List A)
    → (y : A) × (random_one n (x ∷ xs) ≡ ok y) × (get_elem? (x ∷ xs) (n % length (x ∷ xs)) ≡ some y)
unfolding random_one
random_one_ok n x xs =
    let f = get_elem?-lt (x ∷ xs) (n % length (x ∷ xs)) (mod-lt n (omega arith)) in
    (f.0, rw (f.1, random_one) refl, f.1)

record Added (mapped : List UdpAddr) (ports : List ℕ) (addrs : List UdpAddr)
    (o : Result Unit (List UdpAddr)) : Type 0 where
  more : List UdpAddr
  result : o ≡ ok (addrs ++ more)
  ports_eq : map (λ a. a.port) more ≡ ports
  ips : All (λ a. HasMappedIp mapped (a.ip)) more

add_ports-Added :
    (pick : ℕ → ℕ) (m : UdpAddr) (ms : List UdpAddr) (ports : List ℕ) (n : ℕ) (addrs : List UdpAddr)
    → Added (m ∷ ms) ports addrs (add_ports pick (m ∷ ms) ports n addrs)
unfolding add_ports
add_ports-Added pick m ms [] n addrs = record {
  more = [];
  result = ap ok (sym (append-nil addrs));
  ports_eq = refl;
  ips = tt;
}
add_ports-Added pick m ms (port ∷ ports) n addrs =
    let r = random_one_ok (pick n) (m.ip) (map (λ a. a.ip) ms) in
    let new : UdpAddr = record { ip = r.0; port = port } in
    let d = add_ports-Added pick m ms ports (suc n) (addrs ++ new ∷ []) in
    rw (r.1) (record {
      more = new ∷ d.more;
      result = d.result ∙ ap ok (append_assoc addrs (new ∷ []) (d.more));
      ports_eq = ap (λ l. port ∷ l) (d.ports_eq);
      ips = ((_, r.2), d.ips);
    })

length-map : {A B : Type 0} (f : A → B) (xs : List A) → length (map f xs) ≡ length xs
length-map f [] = refl
length-map f (x ∷ xs) = ap suc (length-map f xs)

-- The further addresses: none unless more than one port is asked for, else as many as are asked for, or
-- as the range has.
abbrev pub further : Resource → ℕ
further r =
    if ltb 1 r.remote_port_count
    then min r.remote_port_count (distance r.remote_port_start r.remote_port_end)
    else 0

-- What is probed when there is a mapped address and the search for further ports, if one is needed,
-- ends: the mapped addresses first, then the further ones, each with the IP of a mapped address, and
-- with ports of the range of which no two are alike. If no more than one port is asked for there are no
-- further addresses, else there are as many as asked for, or as the range has ports.
pub remote_addrs_sound :
    (fuel : ℕ) (random pick : ℕ → ℕ) (m : UdpAddr) (ms : List UdpAddr) (r : Resource)
    (o : Result Unit (List UdpAddr))
    → remote_addrs fuel random pick (m ∷ ms) r ≡ some o
    → (more : List UdpAddr) × (o ≡ ok ((m ∷ ms) ++ more))
      × All (λ a. HasMappedIp (m ∷ ms) (a.ip)) more
      × All
          (InRange
            (lower (r.remote_port_start) (r.remote_port_end))
            (distance (r.remote_port_start) (r.remote_port_end)))
          (map (λ a. a.port) more)
      × IsDistinct (map (λ a. a.port) more)
      × (length more ≡ further r)
unfolding remote_addrs
remote_addrs_sound fuel random pick m ms r o e = elim (Bool-cases (ltb 1 (r.remote_port_count))) [
  | inr few ↦ ([], none_more few, tt, tt, tt, rw few refl)
  | inl many ↦ elim (Option-cases drawn_ports) [
    | inl n ↦ cc (rw (many, n) at e)
    | inr s ↦
        let d = add_ports-Added pick m ms (s.0) 0 (m ∷ ms) in
        let g =
          no_repeat_rand_ints_sound fuel random (r.remote_port_start) (r.remote_port_end)
            (r.remote_port_count) (s.0) (s.1) in
        (
          d.more,
          sym (some-injective _ _ (rw (many, s.1) at e)) ∙ d.result,
          d.ips,
          rw (d.ports_eq) (g.1),
          rw (d.ports_eq) (g.0),
          rw many (sym (length-map (λ a. a.port) (d.more)) ∙ ap length (d.ports_eq) ∙ g.2),
        )
  ]
]
  where
    drawn_ports : Option (List ℕ)
    drawn_ports =
        no_repeat_rand_ints fuel random (r.remote_port_start) (r.remote_port_end)
          (r.remote_port_count)

    none_more : ltb 1 (r.remote_port_count) ≡ false → o ≡ ok (m ∷ (ms ++ []))
    none_more few =
        sym (some-injective _ _ (rw few at e)) ∙ ap (λ l. ok (m ∷ l)) (sym (append-nil ms))

-- With no mapped address, the first further port makes RandomOne divide by zero.
pub add_ports_panics :
    (pick : ℕ → ℕ) (port : ℕ) (ports : List ℕ) (n : ℕ) (addrs : List UdpAddr)
    → add_ports pick [] (port ∷ ports) n addrs ≡ panics
unfolding add_ports random_one
add_ports_panics pick port ports n addrs = refl
