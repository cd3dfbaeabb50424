-- ===== src/Query/Tests.antt =====
-- The theorems on queries at a query of three terms.
use warnly.Base.{[], ◌∷◌, text, List}
use warnly.Query.RoundTrip.{Term, raw, is, is_not}

abbrev asked : List Term
asked =
    raw (text "lost pair") ∷ is (text "os") (text "Mac OS") ∷ is_not (text "env") (text "dev") ∷ []
