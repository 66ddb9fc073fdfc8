-- ===== src/Auth/Local/Tests.antt =====
-- internal/auth/local.go: a code that is redeemed twice.
use omarchy_vault.Prelude.{◌*◌, ◌≡◌, refl, GoString, codes, str_eq, false, none, some, []}
use omarchy_vault.Prelude.Dict
use omarchy_vault.Auth.Local.{
  Identity, Local, second, new_code, new_session, make_room, redeem, session, end_sessions_for,
}
use omarchy_vault.Auth.Local.Sessions.{redeem-redeem}

abbrev digest : GoString → GoString
digest s = s

abbrev ann : Identity
ann = record { username = codes "ann"; role = codes "admin"; is_local = false }

abbrev bob : Identity
bob = record { username = codes "bob"; role = codes "family"; is_local = false }

abbrev empty : Local
empty = record { codes = []; sessions = [] }

abbrev issued : Local
issued = (new_code digest ann second (some (codes "code")) empty).0

redeem-redeem_example :
    (redeem digest
      (codes "code")
      second
      second
      (some (codes "s2"))
      (redeem digest (codes "code") second second (some (codes "s1")) issued).0).1
    ≡ none
redeem-redeem_example =
    redeem-redeem digest (codes "code") second second second second (some (codes "s1"))
      (some (codes "s2")) issued

-- The first use works.
first_use :
    (redeem digest (codes "code") second second (some (codes "s1")) issued).1
    ≡ some (codes "s1", ann)
unfolding redeem new_code new_session Dict.insert Dict.lookup str_eq
first_use = refl

abbrev both : Local
both =
    (new_session digest ann second (some (codes "s1"))
      (new_session digest bob second (some (codes "s2")) empty).0).0

ann_in : session digest (codes "s1") (2 * second) (end_sessions_for (codes "bob") both) ≡ some ann
unfolding session end_sessions_for new_session make_room Dict.insert Dict.lookup str_eq
ann_in = refl
