-- ===== src/Util/Tests.antt =====
-- Two calls of Get between three items.
use orthrus.Prelude.{ℕ, [], ◌∷◌}
use orthrus.Util.{ChannelBuffer}

abbrev small : ChannelBuffer ℕ
small = record { capacity = 1; buffer = 3 ∷ [] }
