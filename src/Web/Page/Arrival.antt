-- ===== src/Web/Page/Arrival.antt =====
-- From the location to the page of web/src/main.ts.
use open_console.Prelude.{Bool, some, true, ◌≡◌}
use open_console.Web.Crypto
use open_console.Web.Crypto.{WebCrypto}
use open_console.Web.Page.Fit.{Floats}
use open_console.Web.Page.{Page, is_some}
use open_console.Web.Page.Keeps.{Keeps}

module _ (w : WebCrypto) (n : Floats) where
  -- The listeners are there, and the badge says whether there are keys.
  record IsStarted (encrypted : Bool) (p : Page w n) : Type 0 where
    wired : p.wired ≡ true
    badge : p.view.badge ≡ some encrypted
    keys : is_some w n p.crypto ≡ encrypted
