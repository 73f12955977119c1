-- ===== src/Device/Tests.antt =====
-- The theorems on the device and its rules at concrete inputs.
use ptun.Base.{
  All, ◌&&◌, ◌||◌, List, ℕ, ◌≡◌, refl, ◌==◌, Bool, if◌then◌else◌, true, false, [], ◌∷◌, Option,
  some, ok, arith,
}
use ptun.Network.{IpNet}
use ptun.Device.Tun.{Tun}
use ptun.Device.Tun.Reads.{batch, finished, results, read_all, read_all-batch}
use ptun.Device.Setup.{Os, set_up, fresh_tun}
use ptun.Device.Setup.Laws.{is_ok, succeeds, Makes, plan, open_after, set_up_effects}
use ptun.Base.Text.{str_eq, eq_refl}
use ptun.Device.Rules.Added.{IsTables, rule_to, update_iptables_adds}
use ptun.Device.Rules.{Rule, update_iptables}

abbrev idle : Tun
idle = record { read_bufs = []; buf_sizes = []; count = 0; current = 0 }

read_all-batch_example :
    read_all 2
      (some (batch ((7 ∷ [], 1) ∷ (8 ∷ 9 ∷ [], 2) ∷ []) ((3 ∷ [], 1) ∷ [])))
      (0 ∷ 0 ∷ [])
      idle
    ≡ ok (
      finished ((7 ∷ [], 1) ∷ (8 ∷ 9 ∷ [], 2) ∷ []) ((3 ∷ [], 1) ∷ []),
      results (0 ∷ 0 ∷ []) 1 ((7 ∷ [], 1) ∷ (8 ∷ 9 ∷ [], 2) ∷ []),
    )
read_all-batch_example =
    read_all-batch (0 ∷ 0 ∷ []) (7 ∷ [], 1) ((8 ∷ 9 ∷ [], 2) ∷ []) ((3 ∷ [], 1) ∷ []) idle refl refl
      (omega arith, (omega arith, tt))

-- A kernel in which the first route cannot be added.
abbrev os : Os
os = record {
  create_tun = true;
  link_by_name = true;
  addr_add = λ n. true;
  link_set_up = true;
  link_set_down = true;
  route_add = λ n. false;
  addr_del = λ n. true;
  route_del = λ n. true;
  device_close = true;
  batch_size = 1;
}

abbrev lan : IpNet
lan = record { ip = 10 ∷ 0 ∷ 0 ∷ 1 ∷ []; mask = 255 ∷ 255 ∷ 255 ∷ 0 ∷ [] }

set_up_effects_example :
    (is_ok (set_up os (lan ∷ []) (lan ∷ [])).1 ≡ succeeds os (lan ∷ []) (lan ∷ []))
    × Makes (set_up os (lan ∷ []) (lan ∷ [])) (plan (lan ∷ []) (lan ∷ [])) (fresh_tun 1)
    × (open_after false (set_up os (lan ∷ []) (lan ∷ [])).0 ≡ true)
set_up_effects_example = set_up_effects os (lan ∷ []) (lan ∷ [])

-- Tables that hold the number of rules, each of them alike.
abbrev exists : Rule → ℕ → Option Bool
exists r n = some (if n == 0 then false else true)

-- Tables as a list of rules.
abbrev has_rule : Rule → List Rule → Bool
has_rule r [] = false
has_rule r (q ∷ qs) = (str_eq q.src r.src && str_eq q.dst r.dst) || has_rule r qs

lists-IsTables : IsTables (λ r t. some (has_rule r t)) (λ r t. some (r ∷ t))
lists-IsTables = record {
  answers = λ r t. (has_rule r t, refl);
  appends =
      λ r t. (r ∷ t, refl, ground (arith, eq_refl r.src, eq_refl r.dst), λ q e. ground (arith, e));
}

update_iptables_adds_example :
    let o =
      update_iptables
        (λ r t. some (has_rule r t))
        (λ r t. some (r ∷ t))
        (λ r t. some [])
        (λ l. l)
        "10.0.0.0/24"
        ("a" ∷ "b" ∷ [])
        []
        [] in
    (o.1 ≡ true)
    × All
        (λ d. some (has_rule (rule_to "10.0.0.0/24" d) ((o.0).tables)) ≡ some true)
        ("a" ∷ "b" ∷ [])
update_iptables_adds_example =
    update_iptables_adds (λ r t. some (has_rule r t)) (λ r t. some (r ∷ t)) (λ r t. some [])
      (λ l. l) lists-IsTables "10.0.0.0/24" ("a" ∷ "b" ∷ []) []
