-- ===== src/Parsing/Bnode/Valid.antt =====
-- The values that the C++ types can hold: integers of 64 bits, strings that fit in memory, and maps
-- whose keys ascend.
use node_link.Base.{◌^◌, ◌<◌, ◌≡◌, refl, true, fits_int64, length, arith}
use node_link.Parsing.Buffer.{Buffer}
use node_link.Parsing.Text.{bytes_lt}
use node_link.Parsing.Text.Order.{bytes_lt_asym, bytes_lt_trans}
use node_link.Parsing.Bnode.{
  Bnode, int, string, list, dict, Bnodes, nil, cons, Entries, end, entry, assign,
}

-- The key comes before all of the map's keys, whose first one is the least.
abbrev pub Precedes : Buffer → Entries → Type 0
Precedes k end = Unit {0}
Precedes k (entry j v es) = bytes_lt k j ≡ true

abbrev pub FitsMemory : Buffer → Type 0
FitsMemory s = length s < 2 ^ 63

abbrev mutual
  pub IsValid : Bnode → Type 0
  IsValid (int z) = fits_int64 z ≡ true
  IsValid (string s) = FitsMemory s
  IsValid (list xs) = AllValid xs
  IsValid (dict es) = ValidEntries es

  pub AllValid : Bnodes → Type 0
  AllValid nil = Unit {0}
  AllValid (cons x xs) = IsValid x × AllValid xs

  pub ValidEntries : Entries → Type 0
  ValidEntries end = Unit {0}
  ValidEntries (entry k v es) = FitsMemory k × IsValid v × Precedes k es × ValidEntries es

abbrev pub append_entries : Entries → Entries → Entries
append_entries end es = es
append_entries (entry k v acc) es = entry k v (append_entries acc es)

-- All keys of the map come before the key.
abbrev pub AllBelow : Entries → Buffer → Type 0
AllBelow end k = Unit {0}
AllBelow (entry j w es) k = (bytes_lt j k ≡ true) × AllBelow es k

-- All keys of the map come before those of the other.
abbrev pub Fits : Entries → Entries → Type 0
Fits acc end = Unit {0}
Fits acc (entry k v es) = AllBelow acc k

pub assign_last :
    (k : Buffer) (v : Bnode) (acc : Entries)
    → AllBelow acc k
    → assign k v acc ≡ append_entries acc (entry k v end)
unfolding assign
assign_last k v end h = refl
assign_last k v (entry j w acc) h =
    let not_before = bytes_lt_asym j k h.0 in ground (arith, assign_last k v acc h.1)

AllBelow-trans :
    (acc : Entries) (j k : Buffer) → AllBelow acc j → bytes_lt j k ≡ true → AllBelow acc k
AllBelow-trans end j k h lt = tt
AllBelow-trans (entry i w acc) j k h lt =
    (bytes_lt_trans i j k h.0 lt, AllBelow-trans acc j k h.1 lt)

AllBelow-snoc :
    (acc : Entries) (j k : Buffer) (w : Bnode)
    → AllBelow acc k
    → bytes_lt j k ≡ true
    → AllBelow (append_entries acc (entry j w end)) k
AllBelow-snoc end j k w h lt = (lt, tt)
AllBelow-snoc (entry i u acc) j k w h lt = (h.0, AllBelow-snoc acc j k w h.1 lt)

pub Fits-snoc :
    (acc : Entries) (k : Buffer) (v : Bnode) (es : Entries)
    → AllBelow acc k
    → Precedes k es
    → Fits (append_entries acc (entry k v end)) es
Fits-snoc acc k v end h p = tt
Fits-snoc acc k v (entry j w es) h p = AllBelow-snoc acc k j v (AllBelow-trans acc k j h p) p

pub append_entries-snoc :
    (acc : Entries) (k : Buffer) (v : Bnode) (es : Entries)
    → append_entries (append_entries acc (entry k v end)) es ≡ append_entries acc (entry k v es)
append_entries-snoc end k v es = refl
append_entries-snoc (entry j w acc) k v es = ground (arith, append_entries-snoc acc k v es)

assign-Precedes :
    (i k : Buffer) (v : Bnode) (es : Entries)
    → bytes_lt i k ≡ true
    → Precedes i es
    → Precedes i (assign k v es)
unfolding assign
assign-Precedes i k v end lt p = lt
assign-Precedes i k v (entry j w es) lt p = ground arith

-- `dict[key] = val` keeps the keys in ascending order.
pub assign-ValidEntries :
    (k : Buffer) (v : Bnode) (es : Entries)
    → FitsMemory k
    → IsValid v
    → ValidEntries es
    → ValidEntries (assign k v es)
unfolding assign
assign-ValidEntries k v end fits valid h = (fits, valid, tt, tt)
assign-ValidEntries k v (entry j w es) fits valid h =
    ground (arith, assign-Precedes j k v es, assign-ValidEntries k v es fits valid)
