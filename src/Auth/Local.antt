-- ===== src/Auth/Local.antt =====
-- internal/auth/local.go: login codes and browser sessions, kept by hash. SHA-256 is a parameter, the
-- draws of `Random` are arguments, `none` where one fails. The mutex makes each method one step.
pub mod Sessions
mod Tests
use omarchy_vault.Prelude.{
  ℕ, ◌+◌, ◌*◌, GoString, str_eq, is_empty, Bool, true, false, not, ◌||◌, ltb, leb, length, filter,
  Option, none, some, List, [], ◌∷◌, if◌then◌else◌,
}
use omarchy_vault.Prelude.Dict

pub record Identity : Type 0 where
  pub username : GoString
  pub role : GoString
  pub is_local : Bool

pub record Entry : Type 0 where
  pub exp : ℕ
  pub id : Identity

abbrev pub Entries : Type 0
Entries = List (GoString × Entry)

pub record Local : Type 0 where
  pub codes : Entries
  pub sessions : Entries

abbrev pub second : ℕ
second = 1000000000

abbrev pub code_ttl : ℕ
code_ttl = 30 * second

abbrev pub session_ttl : ℕ
session_ttl = 12 * 3600 * second

abbrev pub max_sessions : ℕ
max_sessions = 64

abbrev pub max_codes : ℕ
max_codes = 16

abbrev pub is_current : ℕ → GoString × Entry → Bool
is_current now (k, e) = not (ltb e.exp now)

-- `Local.gc`
unfoldable pub gc : ℕ → Local → Local
gc now l = record {
  codes = filter (is_current now) l.codes;
  sessions = filter (is_current now) l.sessions;
}

-- The key with the least expiry, the first of them. (Go ranges over a map in no fixed order.)
abbrev pub older : GoString → ℕ → Option (GoString × ℕ) → Option (GoString × ℕ)
older k exp none = some (k, exp)
older k exp (some (k', exp')) = if ltb exp' exp then some (k', exp') else some (k, exp)

unfoldable pub oldest : Entries → Option (GoString × ℕ)
oldest [] = none
oldest ((k, e) ∷ es) = older k e.exp (oldest es)

abbrev pub drop_key : Option (GoString × ℕ) → Entries → Entries
drop_key none es = es
drop_key (some (k, _)) es = Dict.delete k es

-- what `NewSession` does to a full table
unfoldable pub make_room : Entries → Entries
make_room es = if leb max_sessions (length es) then drop_key (oldest es) es else es

module _ (hash : GoString → GoString) where
  -- `Local.NewCode`: the code, or `none` with an error
  unfoldable pub new_code : Identity → ℕ → Option GoString → Local → Local × Option GoString
  unfolding gc
  new_code id now none l = (l, none)
  new_code id now (some code) l =
      let l' = gc now l in
      if leb max_codes (length l'.codes) then (l', none) else (
        record l' {
          codes = Dict.insert (hash code) (record { exp = now + code_ttl; id = id }) l'.codes;
        },
        some code,
      )

  -- `Local.NewSession`
  unfoldable pub new_session : Identity → ℕ → Option GoString → Local → Local × Option GoString
  unfolding gc
  new_session id now none l = (l, none)
  new_session id now (some sid) l =
      let l' = gc now l in
      (
        record l' {
          sessions =
              Dict.insert (hash sid) (record { exp = now + session_ttl; id = id })
                (make_room l'.sessions);
        },
        some sid,
      )

  abbrev pub with_identity :
      Identity → Local × Option GoString → Local × Option (GoString × Identity)
  with_identity id (l, none) = (l, none)
  with_identity id (l, some sid) = (l, some (sid, id))

  -- `Redeem` after the code is taken out; `now'` is the clock of `NewSession`.
  abbrev pub redeem_entry :
      Option Entry → ℕ → ℕ → Option GoString → Local → Local × Option (GoString × Identity)
  redeem_entry none now now' draw l = (l, none)
  redeem_entry (some e) now now' draw l =
      if ltb e.exp now then (l, none) else with_identity e.id (new_session e.id now' draw l)

  -- `Local.Redeem`: the session and its identity, or `none`
  unfoldable pub redeem :
      GoString → ℕ → ℕ → Option GoString → Local → Local × Option (GoString × Identity)
  redeem code now now' draw l =
      if is_empty code
      then (l, none)
      else redeem_entry (Dict.lookup (hash code) l.codes) now now' draw
          (record l { codes = Dict.delete (hash code) l.codes })

  abbrev pub identity_at : ℕ → Option Entry → Option Identity
  identity_at now none = none
  identity_at now (some e) = if ltb now e.exp then some e.id else none

  -- `Local.Session`
  unfoldable pub session : GoString → ℕ → Local → Option Identity
  session sid now l =
      if is_empty sid then none else identity_at now (Dict.lookup (hash sid) l.sessions)

  -- `Local.EndSession`
  unfoldable pub end_session : GoString → Local → Local
  end_session sid l = record l { sessions = Dict.delete (hash sid) l.sessions }

-- `Local.EndSessionsFor`
unfoldable pub end_sessions_for : GoString → Local → Local
end_sessions_for username l = record l {
  sessions = filter (λ (k, e). not (str_eq e.id.username username)) l.sessions;
}
