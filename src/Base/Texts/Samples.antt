-- ===== src/Base/Texts/Samples.antt =====
-- Runs of the text functions.
use mathlib.Core.Path.{◌≡◌, refl}
use mathlib.Core.List.{[], ◌∷◌}
use kysignon_server.Base.Texts.{trim_space, fields}

trim_space_sample : trim_space "  a b  " ≡ "a b"
unfolding trim_space
trim_space_sample = refl

fields_sample : fields " openid  profile " ≡ ("openid" ∷ "profile" ∷ [])
unfolding fields
fields_sample = refl
