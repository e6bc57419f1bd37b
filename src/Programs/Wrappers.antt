-- ===== src/Programs/Wrappers.antt =====
-- Two wrappers of a program, for starting and stopping it, that are written and shipped.
use cloudnative.Base.{String, List, ◌≡◌, ◌≢◌, subst}
use cloudnative.Scripts.{Work, write_file, add_to_files_list_map}
use cloudnative.Programs.Shipped.{Holds, ship-Holds, Holds-add_to_files_list_map, Holds-write_file}

-- Two wrappers, one written and shipped behind the other.
pub ship_two :
    (ip start stop to other : String) (text more : List String) (w : Work) (target last : String)
    → start ≢ stop
    → to ≡ target
    → other ≡ last
    → let v =
        add_to_files_list_map ip stop other
          (write_file stop more (add_to_files_list_map ip start to (write_file start text w))) in
      Holds v ip start target text × Holds v ip stop last more
ship_two ip start stop to other text more w target last ne e f =
    let u = add_to_files_list_map ip start to (write_file start text w) in
    let v = add_to_files_list_map ip stop other (write_file stop more u) in
    (
      subst (λ t. Holds v ip start t text) e
          (Holds-add_to_files_list_map ip stop other (write_file stop more u) ip start to text
            (Holds-write_file stop more u ip start to text ne (ship-Holds ip start to text w))),
      subst (λ t. Holds v ip stop t more) f (ship-Holds ip stop other more u),
    )

-- The same, where each is shipped under a second name too.
pub ship_four :
    (ip start stop to short other brief : String) (text more : List String) (w : Work)
    (target last : String)
    → start ≢ stop
    → to ≡ target
    → other ≡ last
    → let u =
        add_to_files_list_map ip start short
          (add_to_files_list_map ip start to (write_file start text w)) in
      let v =
        add_to_files_list_map ip stop brief
          (add_to_files_list_map ip stop other (write_file stop more u)) in
      Holds v ip start target text × Holds v ip stop last more
ship_four ip start stop to short other brief text more w target last ne e f =
    let u1 = add_to_files_list_map ip start to (write_file start text w) in
    let u = add_to_files_list_map ip start short u1 in
    let v1 = add_to_files_list_map ip stop other (write_file stop more u) in
    let v = add_to_files_list_map ip stop brief v1 in
    let behind = Holds-write_file stop more u ip start to text ne (
      Holds-add_to_files_list_map ip start short u1 ip start to text
        (ship-Holds ip start to text w)) in
    (
      subst (λ t. Holds v ip start t text) e
          (Holds-add_to_files_list_map ip stop brief v1 ip start to text (
            Holds-add_to_files_list_map ip stop other (write_file stop more u) ip start to text
              behind)),
      subst (λ t. Holds v ip stop t more) f
          (Holds-add_to_files_list_map ip stop brief v1 ip stop other more
            (ship-Holds ip stop other more u)),
    )
