-- ===== src/Shared/Redaction/Tests.antt =====
-- A record with a password, one more in a dict, and one in a list.
use realtime_analytics_pipel.Prelude.{ℕ, ◌≡◌, refl, Bool, true, false, some, [], ◌∷◌, ◌&&◌, ◌==◌}
use realtime_analytics_pipel.Shared.Metrics.{Name, starts_with}
use realtime_analytics_pipel.Shared.Redaction.{
  Dict, end, scalar, nested, listed, occurs_in, any_occurs, lower_all, filter, set, set_all,
  with_exception, format,
}

-- "pw", "my_pw", "user"
abbrev pw : Name
pw = 112 ∷ 119 ∷ []

abbrev my_pw : Name
my_pw = 109 ∷ 121 ∷ 95 ∷ 112 ∷ 119 ∷ []

abbrev user : Name
user = 117 ∷ 115 ∷ 101 ∷ 114 ∷ []

abbrev lower : Name → Name
lower k = k

abbrev same : Name → Name → Bool
same [] [] = true
same [] (d ∷ ds) = false
same (c ∷ cs) [] = false
same (c ∷ cs) (d ∷ ds) = let rest = same cs ds in c == d && rest

-- 0 is the text "[REDACTED]"
abbrev attributes : Dict ℕ
attributes =
    scalar user 1
      (nested user (scalar my_pw 7 (scalar user 2 end)) (nested pw (scalar user 3 end) end))

-- a dict with a password in a list under "user", and a list under the key of a password
abbrev in_list : Dict ℕ
in_list = listed user (nested [] (scalar pw 7 end) end) (listed pw (scalar [] 8 end) end)

-- the first password is not redacted
list_left :
    filter lower (pw ∷ []) 0 in_list
    ≡ listed user (nested [] (scalar pw 7 end) end) (scalar pw 0 end)
unfolding filter any_occurs occurs_in lower_all starts_with
list_left = refl

redacts :
    filter lower (pw ∷ []) 0 attributes
    ≡ scalar user 1 (nested user (scalar my_pw 0 (scalar user 2 end)) (scalar pw 0 end))
unfolding filter any_occurs occurs_in lower_all starts_with
redacts = refl

formats :
    format lower (pw ∷ []) 0 same ((user, 9) ∷ []) pw (some (scalar user 5 end)) attributes
    ≡ scalar user 9 (nested user (scalar my_pw 0 (scalar user 2 end)) (scalar pw 0 end))
unfolding format set_all set with_exception filter any_occurs occurs_in lower_all starts_with
formats = refl
