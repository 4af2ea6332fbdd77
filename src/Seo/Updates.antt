-- ===== src/Seo/Updates.antt =====
-- What an update of the SEO fields stores.
use vethealth_backend.Base.{Option}
use mathlib.Core.Option
use mathlib.Core.Option.{some-injective}
use vethealth_backend.Repository.{Repository}
