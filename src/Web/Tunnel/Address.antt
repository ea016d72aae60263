-- ===== src/Web/Tunnel/Address.antt =====
-- `tunnelURL` of web/src/tunnel.ts.
use open_console.Prelude.{◌++◌, Text, codes, if◌then◌else◌, text_eq}

-- What the code reads of `window.location`; the host has the port in it.
pub record Origin : Type 0 where
  pub protocol : Text
  pub host : Text

-- A page served over https opens only wss.
unfoldable pub tunnel_url : Origin → Text
tunnel_url here =
    (if text_eq here.protocol (codes "https:") then codes "wss:" else codes "ws:")
    ++ (codes "//" ++ (here.host ++ codes "/api/v1/tunnel"))
