-- ===== src/PageReplacement/Lfu.antt =====
-- `list_insert` and `update_count`, and LFU over them.
use operating_system_col.Base.{
  Bool, true, ℕ, zero, suc, ◌+◌, ◌<◌, ◌≡◌, ◌≢◌, refl, sym, ap, ◌∙◌, Option, none, some, List, [],
  ◌∷◌, length, arith, if◌then◌else◌, ◌==◌, All,
}
use mathlib.Core.Path.{subst}
use operating_system_col.PageReplacement.{
  LinkedList, no_nodes, list_pop, list_insert, Node, count_nodes, update_count, lfu, address_of,
  start, simulate, run_lfu,
}
use operating_system_col.PageReplacement.Laws.{
  count, Succeeds, Succeeds-bind, Succeeds-mono, Evicted, Laws,
}
use operating_system_col.PageReplacement.Resident.{Ran, simulate-Ran}
use operating_system_col.PageReplacement.Fifo.{IsCounted, Popped, list_pop-Popped, empty-Resident}
use operating_system_col.PageReplacement.Recount.{
  addresses, AtLeast, Ascending, Recounted, recount-Recounted,
}

-- The list of LFU: counted, in order of the counts, all of which are positive.
pub record IsRanked (l : LinkedList Node) : Type 0 where
  pub counted : IsCounted l
  pub positive : AtLeast 1 l.nodes
  pub ascending : Ascending l.nodes

-- What `list_pop` takes has a count at most those of the nodes that stay.
pub record PopsLeast (out : Option Node × LinkedList Node) : Type 0 where
  pub node : Node
  pub is_node : out.0 ≡ some node
  pub least : AtLeast node.count out.1.nodes

inserted :
    (i : ℕ) (nodes : List Node) (size : ℕ) (ended : Bool)
    → size ≡ length nodes
    → (list_insert true i (record { nodes = nodes; size = size; ended = ended })).nodes
      ≡ record { address = i; count = 1 } ∷ nodes
unfolding list_insert
inserted i [] zero ended v = refl
inserted i [] (suc size) ended v = absurd (omega (arith, v))
inserted i (x ∷ xs) zero ended v = absurd (omega (arith, v))
inserted i (x ∷ xs) (suc size) ended v = ground arith

pub list_insert-size : (i : ℕ) (l : LinkedList Node) → (list_insert true i l).size ≡ suc l.size
unfolding list_insert
list_insert-size i l = omega arith

pub list_insert-IsRanked :
    (i : ℕ) (l : LinkedList Node) → IsRanked l → IsRanked (list_insert true i l)
list_insert-IsRanked i l r =
    let e = inserted i l.nodes l.size l.ended r.counted in
    record {
      counted = list_insert-size i l ∙ ap suc r.counted ∙ ap length (sym e);
      positive = subst (AtLeast 1) (sym e) (omega arith, r.positive);
      ascending = subst Ascending (sym e) (r.positive, r.ascending);
    }

pub count-list_insert :
    (i j : ℕ) (l : LinkedList Node)
    → IsRanked l
    → count j (addresses (list_insert true i l).nodes)
      ≡ count j (addresses l.nodes) + (if i == j then 1 else 0)
count-list_insert i j l r =
    ap (λ ns. count j (addresses ns)) (inserted i l.nodes l.size l.ended r.counted) ∙ omega arith

-- What is left behind `list_pop` is ranked.
rest-IsRanked :
    (l : LinkedList Node) (out : Option Node × LinkedList Node)
    → IsRanked l
    → (q : Popped l out) → IsRanked out.1 × AtLeast q.front.count out.1.nodes
rest-IsRanked l out r q =
    let p = subst (AtLeast 1) q.rest r.positive in
    let a = subst Ascending q.rest r.ascending in
    (record { counted = q.counted; positive = p.1; ascending = a.1 }, a.0)

pub lfu_evicts :
    (timer i : ℕ) (l : LinkedList Node)
    → IsRanked l
    → (out : Option Node × LinkedList Node) → Popped l out
    → Succeeds (Evicted (lfu true) (λ m. addresses m.nodes) IsRanked timer i l) (address_of out)
lfu_evicts timer i l r (none, m) q = absurd (none≢some q.is_front)
  where
    none≢some : {x : Node} → none ≢ some x
    none≢some e = cc (e)
lfu_evicts timer i l r (some x, m) q =
    let (ranked, least) = rest-IsRanked l (some x, m) r q in
    let rest : l.nodes ≡ x ∷ m.nodes = cc (q.rest, q.is_front) in
    let split = λ (j : ℕ). ap (λ ns. count j (addresses ns)) rest in
    record {
      victim = x.address;
      is_victim = refl;
      entered = record {
        valid = list_insert-IsRanked i m ranked;
        counts = λ j. omega (arith, count-list_insert i j m ranked, split j);
      };
      resident = ground (arith, split x.address);
      same_size = list_insert-size i m ∙ sym q.smaller;
    }

touch_nodes :
    (i : ℕ) (nodes : List Node)
    → 0 < count i (addresses nodes)
    → Succeeds (Recounted nodes) (count_nodes i nodes)
touch_nodes i [] h = absurd (omega arith)
touch_nodes i (x ∷ xs) h = recount-Recounted i (x ∷ xs) h

-- What `update_count` leaves of a ranked list.
pub record Touched (l l' : LinkedList Node) : Type 0 where
  pub ranked : IsRanked l'
  pub same_size : l'.size ≡ l.size
  pub counts : (j : ℕ) → count j (addresses l'.nodes) ≡ count j (addresses l.nodes)

pub update_count-Touched :
    (i : ℕ) (l : LinkedList Node)
    → IsRanked l
    → 0 < count i (addresses l.nodes)
    → Succeeds (Touched l) (update_count true i l)
unfolding update_count
update_count-Touched i l r h =
    Succeeds-bind (Recounted l.nodes) (Touched l) (count_nodes i l.nodes) _
      (touch_nodes i l.nodes h)
      λ ns q. record {
        ranked = record {
          counted = r.counted ∙ sym q.len;
          positive = q.low 1 r.positive;
          ascending = q.ascending r.ascending;
        };
        same_size = refl;
        counts = q.counts;
      }

pub length-addresses : (l : List Node) → length (addresses l) ≡ length l
length-addresses [] = refl
length-addresses (x ∷ l) = ap suc (length-addresses l)

pops_least : (l : LinkedList Node) → IsRanked l → 0 < l.size → Succeeds PopsLeast (list_pop true l)
pops_least l r h =
    Succeeds-mono (Popped l) PopsLeast (list_pop true l) (list_pop-Popped l r.counted h)
      λ out q. record { node = q.front; is_node = q.is_front; least = (rest-IsRanked l out r q).1 }

abbrev pub lfu_laws : Laws (lfu true)
lfu_laws = record {
  pages = λ l. addresses l.nodes;
  Valid = IsRanked;
  size-length = λ l r. r.counted ∙ sym (length-addresses l.nodes);
  evicts = λ timer i l r h.
      Succeeds-bind (Popped l) _ (list_pop true l) address_of (list_pop-Popped l r.counted h)
        λ out q. lfu_evicts timer i l r out q;
  adds = λ timer i l r. (
    record {
      valid = list_insert-IsRanked i l r;
      counts = λ j. omega (arith, count-list_insert i j l r);
    },
    list_insert-size i l,
  );
  touches = λ i l r h.
      Succeeds-mono (Touched l) _ (update_count true i l) (update_count-Touched i l r h)
        λ l' q. (q.ranked, q.same_size, q.counts);
}

-- With a `malloc` whose memory reads as NULL, which C does not promise, `LFU` with at least one page
-- frame, on pages in range, is defined to its end: no access leaves the
-- array or goes through NULL, and the `assert` of `update_count` never fails. The array then marks
-- exactly the pages of the list, each of which stands there once, the list has no more nodes than
-- there are page frames, and there is at most one fault for each page that was asked for. If the
-- list is not empty, the node that `list_pop` would take next has a count at most that of every
-- other node.
pub run_lfu-Ran :
    (pages frames : ℕ) (refs : List ℕ)
    → 0 < pages
    → All (λ i. i < frames + 5) refs
    → Succeeds
        (λ t.
          Ran (lfu true) lfu_laws pages frames refs (start no_nodes) t
          × (0 < t.list.size → Succeeds PopsLeast (list_pop true t.list)))
        (run_lfu true pages frames refs)
unfolding run_lfu
run_lfu-Ran pages frames refs room h =
    Succeeds-mono (Ran (lfu true) lfu_laws pages frames refs (start no_nodes)) _
      (simulate (lfu true) pages frames 0 refs (start no_nodes))
      (simulate-Ran (lfu true) lfu_laws pages frames 0 refs (start no_nodes) room
        (empty-Resident (lfu true) lfu_laws pages frames no_nodes
          (record { counted = refl; positive = tt; ascending = tt }) refl refl)
        h)
      λ t q. (q, λ some_node. pops_least t.list q.after.valid some_node)
