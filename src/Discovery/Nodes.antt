-- ===== src/Discovery/Nodes.antt =====
-- The nodes and their memory as they were found (hpc_batch/resources.py: `discover_numa_nodes`,
-- `discover_node_memory_gb`).
use hpc_batch.Base.{
  ℕ, zero, suc, ◌<◌, ◌≡◌, refl, subst, >>=-eq-some, ◌⊎◌, inl, inr, Bool, true, false, ◌||◌, Option,
  none, some, List, [], ◌∷◌, ◌==◌, if◌then◌else◌, arith, All, Option-cases, Bool-cases, is_nil,
  drop, sort_by,
}
use hpc_batch.Base.Dict.{Dict, put, has, keys, values, contains-keys-put, Distinct-keys-put}
use hpc_batch.Base.Entries.{All-values-put}
use hpc_batch.Base.Int.{ℤ, pos, negsuc}
use hpc_batch.Base.Sets.{contains, Distinct}
use hpc_batch.Machine.CpuList.{read_int, parse_cpu_list, count_from}
use hpc_batch.Discovery.{
  node_memory, memory_of, discover_node_memory_gb, text_leb, NodeEntry, Read, os_error, value_error,
  nodes_read, read_nodes, one_node, nodes_or, discover_numa_nodes,
}
use mathlib.Core.Option.{some-injective}

-- Every node that was read is there, once.
memory_of-keys :
    (meminfo : ℕ → Option (List ℕ)) (ns : List ℕ) (mem out : Dict ℕ)
    → memory_of meminfo ns mem ≡ some out
    → Distinct (keys mem)
    → Distinct (keys out)
      × ((n : ℕ) → contains n (keys out) ≡ (contains n ns || contains n (keys mem)))
unfolding memory_of contains
memory_of-keys meminfo [] mem out e d =
    subst (λ o. Distinct (keys o) × ((n : ℕ) → contains n (keys o) ≡ contains n (keys mem)))
      (some-injective mem out e) (d, λ n. refl)
memory_of-keys meminfo (n ∷ ns) mem out e d =
    let (read, _, e') = >>=-eq-some (meminfo n) _ e in
    let (gb, _, e'') = >>=-eq-some (node_memory read) _ e' in
    let (distinct, same) =
      memory_of-keys meminfo ns (put mem n gb) out e'' (Distinct-keys-put mem n gb d) in
    (distinct, λ k. ground (arith, same k, contains-keys-put mem n k gb))

-- The memory of the nodes is found for all of them, each listed once, or it is not told at all: a
-- node whose memory cannot be read does not look as if it had none.
pub discover_node_memory_gb-whole :
    (nodes : Dict (List ℕ)) (meminfo : ℕ → Option (List ℕ))
    → (discover_node_memory_gb nodes meminfo ≡ [])
      ⊎ (Distinct (keys (discover_node_memory_gb nodes meminfo))
          × ((n : ℕ) → has (discover_node_memory_gb nodes meminfo) n ≡ has nodes n))
unfolding discover_node_memory_gb has
discover_node_memory_gb-whole nodes meminfo =
    elim (Option-cases (memory_of meminfo (keys nodes) [])) [
      | inl e ↦ inl (rw (e, discover_node_memory_gb) refl)
      | inr (out, e) ↦
          let (distinct, same) = memory_of-keys meminfo (keys nodes) [] out e tt in
          inr (
            rw (e, discover_node_memory_gb)
              (distinct, λ n. unfold contains in ground (arith, same n)))
    ]

-- Nodes of which none is listed twice or without a cpu.
abbrev pub IsUsable : Dict (List ℕ) → Type 0
IsUsable nodes = Distinct (keys nodes) × All (λ cpus. is_nil cpus ≡ false) (values nodes)

abbrev IsReadWell : Read → Type 0
IsReadWell os_error = Unit
IsReadWell value_error = Unit
IsReadWell (nodes_read nodes) = IsUsable nodes

added-IsUsable :
    (b : Bool) (nodes : Dict (List ℕ)) (n : ℕ) (cpus : List ℕ)
    → is_nil cpus ≡ b
    → IsUsable nodes
    → IsUsable (if b then nodes else put nodes n cpus)
added-IsUsable true nodes n cpus e u = u
added-IsUsable false nodes n cpus e u = (
  Distinct-keys-put nodes n cpus u.0,
  All-values-put (λ cs. is_nil cs ≡ false) nodes n cpus u.1 e,
)

read_nodes-IsReadWell :
    (entries : List NodeEntry) (nodes : Dict (List ℕ))
    → IsUsable nodes
    → IsReadWell (read_nodes entries nodes)
unfolding read_nodes
read_nodes-IsReadWell [] nodes u = u
read_nodes-IsReadWell ((name, cpulist) ∷ entries) nodes u =
    numbered (λ ns v. read_nodes-IsReadWell entries ns v) (read_int (drop 4 name)) cpulist
  where
    listed :
        ((ns : Dict (List ℕ)) → IsUsable ns → IsReadWell (read_nodes entries ns))
        → (n : ℕ) (got : Option (List ℕ))
        → IsReadWell (elim got as (λ _. Read) [
          | none ↦ value_error
          | some cpus ↦ read_nodes entries (if is_nil cpus then nodes else put nodes n cpus)
        ])
    listed rest n none = tt
    listed rest n (some cpus) = rest _ (added-IsUsable (is_nil cpus) nodes n cpus refl u)

    numbered :
        ((ns : Dict (List ℕ)) → IsUsable ns → IsReadWell (read_nodes entries ns))
        → (id : Option ℤ) (file : Option (List ℕ))
        → IsReadWell (elim id as (λ _. Read) [
          | none ↦ value_error
          | some (negsuc n) ↦ value_error
          | some (pos n) ↦ elim file as (λ _. Read) [
            | none ↦ os_error
            | some read ↦ elim (parse_cpu_list read) as (λ _. Read) [
              | none ↦ value_error
              | some cpus ↦ read_nodes entries (if is_nil cpus then nodes else put nodes n cpus)
            ]
          ]
        ])
    numbered rest none file = tt
    numbered rest (some (negsuc n)) file = tt
    numbered rest (some (pos n)) none = tt
    numbered rest (some (pos n)) (some read) = listed rest n (parse_cpu_list read)

one_node-IsUsable :
    (cpu_count : Option ℕ) → (is_nil (one_node cpu_count) ≡ false) × IsUsable (one_node cpu_count)
unfolding one_node contains
one_node-IsUsable cpu_count =
    let least = counted cpu_count in (refl, ((refl, tt), (from_least _ least, tt)))
  where
    counted :
        (c : Option ℕ) → 0 < elim c as (λ _. ℕ) [ none ↦ 1 | some n ↦ if n == 0 then 1 else n ]
    counted none = omega arith
    counted (some n) = ground arith

    from_least : (k : ℕ) → 0 < k → is_nil (count_from k 0) ≡ false
    from_least zero h = absurd (omega arith)
    from_least (suc k) h = refl

nodes_or-IsUsable :
    (fallback nodes : Dict (List ℕ)) (read : Read)
    → (is_nil fallback ≡ false) × IsUsable fallback
    → IsReadWell read
    → nodes_or fallback read ≡ some nodes
    → (is_nil nodes ≡ false) × IsUsable nodes
unfolding nodes_or
nodes_or-IsUsable fallback nodes value_error f u e = absurd (cc)
nodes_or-IsUsable fallback nodes os_error f u e =
    subst (λ ns. (is_nil ns ≡ false) × IsUsable ns) (some-injective fallback nodes e) f
nodes_or-IsUsable fallback nodes (nodes_read found) f u e = elim (Bool-cases (is_nil found)) [
  | inl empty ↦
      let same : fallback ≡ nodes = some-injective fallback nodes (rw empty at e) in
      subst (λ ns. (is_nil ns ≡ false) × IsUsable ns) same f
  | inr full ↦
      let same : found ≡ nodes = some-injective found nodes (rw full at e) in
      subst (λ ns. (is_nil ns ≡ false) × IsUsable ns) same (full, u)
]

-- Whatever the kernel lists and however many cpus Python counts: when nodes are found, there is
-- one, none is listed twice, and each has a cpu.
pub discover_numa_nodes-IsUsable :
    (entries : Option (List NodeEntry)) (cpu_count : Option ℕ) (nodes : Dict (List ℕ))
    → discover_numa_nodes entries cpu_count ≡ some nodes
    → (is_nil nodes ≡ false) × IsUsable nodes
unfolding discover_numa_nodes
discover_numa_nodes-IsUsable none cpu_count nodes e =
    nodes_or-IsUsable (one_node cpu_count) nodes os_error (one_node-IsUsable cpu_count) tt e
discover_numa_nodes-IsUsable (some es) cpu_count nodes e =
    let sorted_entries = sort_by (λ (a b : NodeEntry). text_leb a.0 b.0) es in
    nodes_or-IsUsable (one_node cpu_count) nodes (read_nodes sorted_entries [])
      (one_node-IsUsable cpu_count) (read_nodes-IsReadWell sorted_entries [] (tt, tt)) e
