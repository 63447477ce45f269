-- ===== src/Affected/Prefix.antt =====
-- crates/nxr-affected/src/graph.rs: the keys of the nodes tell the nodes apart.
use Prim.Native.String.{String}
use nxr.Base.{◌≡◌, sym, ap, ◌∙◌, some, arith}
use nxr.Base.Order.{string_ord, eqb, eqb_iff}
use nxr.Base.Texts.Prefix.{strip_prefix-append}
use nxr.Base.Texts.{strip_prefix}
use nxr.Affected.Graph.{task, node_key}

node_key-inj : (n m : String) → node_key task n ≡ node_key task m → n ≡ m
unfolding node_key
node_key-inj n m h =
    let same : some n ≡ some m =
      sym (strip_prefix-append "task:" n)
      ∙ ap (λ k. strip_prefix k "task:") h
      ∙ strip_prefix-append "task:" m in
    ground (arith, same)

pub eqb-node_key : (n m : String) → eqb (node_key task n) (node_key task m) ≡ eqb n m
eqb-node_key n m =
    ground (arith, eqb_iff n m, eqb_iff (node_key task n) (node_key task m), node_key-inj n m)
