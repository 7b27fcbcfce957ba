-- ===== src/Server/Invariants.antt =====
-- internal/server/main.go: properties of the server's tables that hold over any of its histories.
use mmar.Constants.{max_tunnels_per_ip}
use mmar.Prelude.Decimal.{ℤ}
use mmar.Prelude.Maps.{Map, lookup}
use mmar.Prelude.{◌≤◌, ◌≡◌, ◌∙◌, Bytes, Option, length, bytes_eq}
use mmar.Server.Keeps.{Invariant}
use mmar.Server.Registry.Invariant.{new_client_tunnel-IsCapped, Removed-IsCapped}
use mmar.Server.Registry.Keyed.{
  Keyed, keys_of, new_client_tunnel-Keyed, Removed-Keyed, new_client_tunnel-keys_of,
  Removed-keys_of,
}
use mmar.Server.Registry.{tunnels_or_nil}

-- No address has more tunnels counted than it may.
abbrev pub capped : Invariant
capped = record {
  holds = λ clients per_ip auth.
      (ip : Bytes) → length (tunnels_or_nil (lookup ip per_ip)) ≤ max_tunnels_per_ip;
  may_close = λ ct. Unit;
  made = new_client_tunnel-IsCapped;
  removed = λ may p h. Removed-IsCapped p h;
}

-- The keys are these, and every client has one of them.
abbrev pub keyed : Option (Map Bytes ℤ) → Invariant
keyed keys = record {
  holds = λ clients per_ip auth. Keyed clients auth × (keys_of auth ≡ keys);
  may_close = λ ct. Unit;
  made = λ draws t subdomain token s c s' h e. (
    new_client_tunnel-Keyed draws t subdomain token s c s' h.0 e,
    new_client_tunnel-keys_of draws t subdomain token s c s' e ∙ h.1,
  );
  removed = λ may p h. (Removed-Keyed p h.0, Removed-keys_of p ∙ h.1);
}
