-- ===== src/Node/Local/Sync/Tests.antt =====
-- Catching up with a peer, at concrete chains.
use csci1951l_cryptocurrency.Prelude.{
  ◌++◌, [], ◌∷◌, false, some, ◌≡◌, refl, arith, take, drop, ◌+◌, ap, ◌∙◌, map, inr,
}
use csci1951l_cryptocurrency.Prelude.Result.{ok, panic}
use csci1951l_cryptocurrency.Text.{Bytes, codes}
use csci1951l_cryptocurrency.Utils.Logging.{fmt_addr}
use csci1951l_cryptocurrency.Text.Equality.{beq}
use csci1951l_cryptocurrency.Text.Decimal.{format}
use csci1951l_cryptocurrency.Text.Hex.{encode_to_string}
use csci1951l_cryptocurrency.Dict.{lookup, contains, insert}
use csci1951l_cryptocurrency.Crypto
use csci1951l_cryptocurrency.Crypto.Toy.{toy, toy-IsSum256}
use csci1951l_cryptocurrency.Block
use csci1951l_cryptocurrency.Block.{Block}
use csci1951l_cryptocurrency.Blockchain
use csci1951l_cryptocurrency.Blockchain.{
  Blockchain, BlockchainNode, child, block, depth, append_to, get,
}
use csci1951l_cryptocurrency.Blockchain.Config as ChainConfig
use csci1951l_cryptocurrency.Blockchain.Invariant.{IsTree, add-IsTree, new-IsTree}
use csci1951l_cryptocurrency.Blockchain.MainChain.{branch}
use csci1951l_cryptocurrency.Blockchain.Linked.{here, next}
use csci1951l_cryptocurrency.Blockchain.Recorded.{IsRecorded, new-IsRecorded, add-IsRecorded}
use csci1951l_cryptocurrency.Net.PeerDb
use csci1951l_cryptocurrency.Net.PeerDb.{Peer}
use csci1951l_cryptocurrency.Node.{Node, Outcome}
use csci1951l_cryptocurrency.Node.Local.{bootstrap}
use csci1951l_cryptocurrency.Node.Local.Fetch.{answer_of, unmark_block, get_blocks_lem}
use csci1951l_cryptocurrency.Node.Local.Longest.{IsFirstLongest}
use csci1951l_cryptocurrency.Node.Local.Sync.{
  IsBehind, offer, offer_lem, bootstrap-follows, bootstrap_fork_panics,
}
use csci1951l_cryptocurrency.Node.Runs.Tests.{digger}
use csci1951l_cryptocurrency.Node.Tests.{peerless, stray_block}

abbrev pub early : Blockchain
early = Blockchain.new ChainConfig.default_config

-- A block without transactions after the given one.
abbrev on : Block → Bytes → Block
on b mark = record {
  hdr = record stray_block.hdr { prv_blk_hsh = Block.hash b; mrkl_rt = mark };
  transactions = [];
}

abbrev pub first : Block
first = on (block early.last_block) []

abbrev pub later : Blockchain
later = append_to first early.last_block early

abbrev pub ally : Peer
ally = record { addr = 0; version = 0; best_height = 2 }

abbrev pub novice : Node
novice = record peerless {
  chain = early;
  mnr = some digger;
  peer_db = record peerless.peer_db { peers = (codes "b:80", ally) ∷ [] };
}

abbrev pub veteran : Node
veteran = record peerless { chain = later }

later-add : Blockchain.add (some first) early ≡ ok later
unfolding Blockchain.add Blockchain.new Blockchain.genesis_block lookup Block.hash Crypto.hash
    encode_to_string beq format Block.format_header
later-add = refl

later-fresh : contains (Block.hash first) early.blocks ≡ false
unfolding contains Blockchain.new Blockchain.genesis_block lookup Block.hash Crypto.hash
    encode_to_string beq format Block.format_header
later-fresh = refl

later-IsTree : IsTree later
later-IsTree = add-IsTree (some first) early later (new-IsTree ChainConfig.default_config) later-add

later-IsRecorded : IsRecorded later
later-IsRecorded =
    add-IsRecorded first early later (new-IsRecorded ChainConfig.default_config) later-fresh
      later-add

pub novice-IsBehind : IsBehind novice veteran (first ∷ [])
unfolding append_to lookup Blockchain.new Blockchain.genesis_block Block.hash Crypto.hash
    encode_to_string beq format Block.format_header
novice-IsBehind = record {
  tree = later-IsTree;
  recorded = later-IsRecorded;
  common = early.last_block;
  follows = next here first 0 1;
  same = refl;
  found = refl;
}

novice-first : IsFirstLongest (offer novice veteran) (some (offer novice veteran) ∷ [])
novice-first = record {
  before = [];
  after = [];
  split = refl;
  bound = 0;
  longer = rw (offer_lem novice veteran (first ∷ []) novice-IsBehind) (omega arith);
  shorter = tt;
  others = tt;
}

pub novice-printed : fmt_addr novice.addr ≡ ok []
unfolding fmt_addr
novice-printed = refl

pub novice-peered : PeerDb.list novice.peer_db ≡ ally ∷ []
unfolding PeerDb.list
novice-peered = refl

bootstrap-follows_example :
    (o : Outcome) × (bootstrap (some (offer novice veteran) ∷ []) (answer_of veteran) novice ≡ ok o)
    × (o.failed ≡ false)
    × (branch o.node.chain.last_block ≡ branch early.last_block ++ map unmark_block (first ∷ []))
    × IsBehind o.node veteran []
bootstrap-follows_example =
    bootstrap-follows toy-IsSum256 novice veteran (first ∷ []) [] ally []
      (some (offer novice veteran) ∷ []) novice-IsBehind novice-printed novice-peered novice-first
      (inr (digger, refl))

-- A block beside the first one, and one after the first.
abbrev rival : Block
rival = on (block early.last_block) (codes "r")

abbrev second : Block
second = on first []

abbrev grown : Blockchain
grown = append_to second later.last_block later

abbrev forked : Blockchain
forked = append_to rival early.last_block grown

abbrev loser : Node
loser = record novice { chain = append_to rival early.last_block early }

abbrev winner : Node
winner = record peerless { chain = forked }

grown-add : Blockchain.add (some second) later ≡ ok grown
unfolding Blockchain.add append_to Blockchain.new Blockchain.genesis_block lookup insert Block.hash
    Crypto.hash encode_to_string beq format Block.format_header
grown-add = refl

forked-add : Blockchain.add (some rival) grown ≡ ok forked
unfolding Blockchain.add append_to Blockchain.new Blockchain.genesis_block lookup insert Block.hash
    Crypto.hash encode_to_string beq format Block.format_header
forked-add = refl

forked-IsTree : IsTree forked
forked-IsTree =
    add-IsTree (some rival) grown forked
      (add-IsTree (some second) later grown later-IsTree grown-add) forked-add

abbrev rival_node : BlockchainNode
rival_node = child rival early.last_block 0 1

rival-known :
    lookup (Block.hash (block loser.chain.last_block)) winner.chain.blocks ≡ some rival_node
unfolding append_to Blockchain.new Blockchain.genesis_block lookup insert Block.hash Crypto.hash
    encode_to_string beq format Block.format_header
rival-known = refl

second-deeper : drop (depth rival_node + 1) (branch winner.chain.last_block) ≡ second ∷ []
unfolding append_to branch Blockchain.new
second-deeper = refl

second-found : get (Block.hash second) winner.chain ≡ ok second
unfolding append_to get Blockchain.new Blockchain.genesis_block lookup insert Block.hash Crypto.hash
    encode_to_string beq format Block.format_header
second-found = refl

second-orphan : contains second.hdr.prv_blk_hsh loser.chain.blocks ≡ false
unfolding append_to contains Blockchain.new Blockchain.genesis_block lookup insert Block.hash
    Crypto.hash encode_to_string beq format Block.format_header
second-orphan = refl

loser-offered : offer loser winner ≡ Block.hash second ∷ []
loser-offered =
    get_blocks_lem _ rival_node winner forked-IsTree rival-known
    ∙ ap (λ l. map Block.hash (take 499 l)) second-deeper

loser-first : IsFirstLongest (offer loser winner) (some (offer loser winner) ∷ [])
loser-first = record {
  before = [];
  after = [];
  split = refl;
  bound = 0;
  longer = rw loser-offered (omega arith);
  shorter = tt;
  others = tt;
}

bootstrap_fork_panics_example :
    bootstrap (some (offer loser winner) ∷ []) (answer_of winner) loser ≡ panic
bootstrap_fork_panics_example =
    bootstrap_fork_panics toy-IsSum256 loser winner rival_node second [] [] ally []
      (some (offer loser winner) ∷ []) forked-IsTree rival-known second-deeper second-found
      second-orphan novice-printed novice-peered loser-first
