-- ===== src/Server/Abstract/Holding.antt =====
-- internal/server/main.go: the tunnels counted under a token, as a change of the
-- counts changes them.
use mathlib.Core.Path.{subst}
use mmar.Auth.{AuthManager, tunnels_of, add_tunnel, remove_tunnel}
use mmar.Auth.Limits.{tunnels_of-add, tunnels_of-remove}
use mmar.Prelude.{
  ◌≡◌, sym, Bytes, List, [], ◌∷◌, ◌++◌, Option, none, some, arith, bytes_eq, ◌==◌, if◌then◌else◌,
  true, false, Bool, erase,
}
use mmar.Server.Abstract.Bags.{Lists, append-Lists, erase-Lists}
use mmar.Server.Abstract.{Bag, put_in, take_out, change_token, AllowsToken}
use mmar.Server.Registry.Keyed.{keys_of}
use mmar.Server.Registry.{auth_add, auth_remove}

-- The tunnels counted under a token, if there is authentication.
abbrev pub held_under : Option AuthManager → Bytes → List Bytes
held_under none token = []
held_under (some am) token = tunnels_of am token

pub change-Lists :
    (f : Bag → Bag) (g : List Bytes → List Bytes) (b : Bool) {bag : Bag} {ids : List Bytes}
    → Lists (f bag) (g ids)
    → Lists bag ids
    → Lists (if b then f bag else bag) (if b then g ids else ids)
change-Lists f g true p q = p
change-Lists f g false p q = q

pub held-add :
    (auth : Option AuthManager) (token id other : Bytes) (bags : Bytes → Bag)
    → AllowsToken (keys_of auth) token
    → Lists (bags other) (held_under auth other)
    → Lists (change_token (put_in id) token bags other) (held_under (auth_add token id auth) other)
unfolding auth_add
held-add none [] id other bags allowed p = p
held-add none (c ∷ token) id other bags allowed p = absurd (cc)
held-add (some am) [] id other bags allowed p = p
held-add (some am) (c ∷ token) id other bags allowed p =
    subst (Lists (change_token (put_in id) (c ∷ token) bags other)) (sym appended) (
      change-Lists (put_in id) (λ ids. ids ++ id ∷ []) ((c ∷ token) == other) (append-Lists id p) p)
  where
    appended :
        tunnels_of (add_tunnel am (c ∷ token) id) other
        ≡ (if (c ∷ token) == other then tunnels_of am other ++ id ∷ [] else tunnels_of am other)
    appended =
        ground (arith, tunnels_of-add am (c ∷ token) id other, bytes_eq.same_iff (c ∷ token) other)

pub held-remove :
    (auth : Option AuthManager) (token id other : Bytes) (bags : Bytes → Bag)
    → Lists (bags other) (held_under auth other)
    → Lists
        (change_token (take_out id) token bags other)
        (held_under (auth_remove token id auth) other)
unfolding auth_remove
held-remove none [] id other bags p = p
held-remove none (c ∷ token) id other bags p =
    subst (Lists (change_token (take_out id) (c ∷ token) bags other)) kept
      (change-Lists (take_out id) (erase id) ((c ∷ token) == other) (erase-Lists id p) p)
  where
    kept : (if (c ∷ token) == other then erase id [] else []) ≡ []
    kept = unfold erase in ground arith
held-remove (some am) [] id other bags p = p
held-remove (some am) (c ∷ token) id other bags p =
    subst (Lists (change_token (take_out id) (c ∷ token) bags other)) (sym erased)
      (change-Lists (take_out id) (erase id) ((c ∷ token) == other) (erase-Lists id p) p)
  where
    erased :
        tunnels_of (remove_tunnel am (c ∷ token) id) other
        ≡ (if (c ∷ token) == other then erase id (tunnels_of am other) else tunnels_of am other)
    erased =
        ground
          (arith, tunnels_of-remove am (c ∷ token) id other, bytes_eq.same_iff (c ∷ token) other)
