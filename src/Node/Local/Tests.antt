-- ===== src/Node/Local/Tests.antt =====
-- The panic at a peer without a colon in its address, at a concrete node.
use csci1951l_cryptocurrency.Prelude.{◌≡◌, [], refl, arith}
use csci1951l_cryptocurrency.Prelude.Result.{panic}
use csci1951l_cryptocurrency.Text.{codes}
use csci1951l_cryptocurrency.Dict.{lookup}
use csci1951l_cryptocurrency.Crypto.Toy.{toy, toy-IsSum256}
use csci1951l_cryptocurrency.Proto.{VersionRequest}
use csci1951l_cryptocurrency.Tx
use csci1951l_cryptocurrency.Node.Config
use csci1951l_cryptocurrency.Node.Handlers.{version}
use csci1951l_cryptocurrency.Node.Handlers.Greeting.{IsNew}
use csci1951l_cryptocurrency.Node.Local.{hndl_wt_tx}
use csci1951l_cryptocurrency.Node.Local.Unprintable.{version-hndl_wt_tx_panics}
use csci1951l_cryptocurrency.Node.Tests.{peerless, purchase}

abbrev nameless : VersionRequest
nameless = record { version = 0; addr_you = []; addr_me = codes "abc"; best_height = 1 }

nameless-IsNew : IsNew nameless.addr_me peerless
unfolding lookup
nameless-IsNew = record { unknown = refl; room = omega arith; stranger = refl; seat = omega arith }

nameless-version : nameless.version ≡ peerless.conf.version
unfolding Config.default_config
nameless-version = refl

version-hndl_wt_tx_panics_example :
    hndl_wt_tx (Tx.deserialize purchase) (version nameless 5 peerless).node ≡ panic
version-hndl_wt_tx_panics_example =
    version-hndl_wt_tx_panics nameless 5 peerless b'a' (codes "bc") toy-IsSum256 nameless-version
      nameless-IsNew refl (omega arith) (Tx.deserialize purchase)
