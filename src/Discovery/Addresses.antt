-- ===== src/Discovery/Addresses.antt =====
-- A version with ready endpoints has addresses to send to.
use kubetraffic.Prelude.{
  Str, Bool, true, false, List, [], ◌∷◌, ◌++◌, arith, ◌≡◌, refl, ◌∙◌, ◌⊎◌, inl, inr, is_empty, All,
  sort, insert_sorted, str_ltb,
}
use kubetraffic.Prelude.Int.{pos}
use kubetraffic.Api.{RouteRule, BackendVersion}
use kubetraffic.Discovery.{
  EndpointSet, Resolution, VersionBucket, empty_set, count_endpoint, sorted_set, resolve,
}
use kubetraffic.Discovery.Sets.{IsKept, ListsOnly, resolve-AllSets}
use kubetraffic.Discovery.Reads.{Cluster, ok, Endpoint}

-- An endpoint of a slice has an address, as the API demands.
abbrev pub HasAddress : Endpoint → Type 0
HasAddress ep = is_empty ep.addresses ≡ false

-- Every endpoint that is listed has an address, as the API demands.
abbrev pub ListsAddresses : Cluster → Str → Type 0
ListsAddresses = ListsOnly HasAddress

-- Where endpoints are ready, there is an address.
abbrev pub IsReachable : EndpointSet → Type 0
IsReachable es = (is_empty es.addresses ≡ false) ⊎ (es.ready ≡ pos 0)

is_empty-append_one : (xs : List Str) (a : Str) → is_empty (xs ++ a ∷ []) ≡ false
is_empty-append_one [] a = refl
is_empty-append_one (x ∷ xs) a = refl

is_empty-insert_sorted : (x : Str) (xs : List Str) → is_empty (insert_sorted str_ltb x xs) ≡ false
unfolding insert_sorted
is_empty-insert_sorted x [] = refl
is_empty-insert_sorted x (y ∷ ys) = ground arith

is_empty-sort : (xs : List Str) → is_empty (sort str_ltb xs) ≡ is_empty xs
unfolding sort
is_empty-sort [] = refl
is_empty-sort (x ∷ xs) = is_empty-insert_sorted x (sort str_ltb xs)

count_endpoint-IsReachable :
    (ready : Bool) (as' : List Str) (b : VersionBucket)
    → is_empty as' ≡ false
    → IsReachable b.set
    → IsReachable (count_endpoint ready as' b).set
unfolding count_endpoint
count_endpoint-IsReachable true [] b e h = cc
count_endpoint-IsReachable true (a ∷ rest) b e h = inl (is_empty-append_one b.set.addresses a)
count_endpoint-IsReachable false as' b e h = h

reachable : (b : VersionBucket) → IsReachable b.set → IsReachable (sorted_set b)
reachable b (inl e) = inl (is_empty-sort b.set.addresses ∙ e)
reachable b (inr e) = inr e

IsReachable-kept : IsKept IsReachable HasAddress
IsReachable-kept = record {
  counted = λ ready ep b. count_endpoint-IsReachable ready ep.addresses b;
  sorted = reachable;
}

new-AllReachable :
    (vs : List BackendVersion) → All (λ (v : BackendVersion). IsReachable (empty_set v.name)) vs
new-AllReachable [] = tt
new-AllReachable (v ∷ vs) = (inr refl, new-AllReachable vs)

pub resolve-IsReachable :
    (cluster : Cluster) (namespace : Str) (rule : RouteRule) (label : Str) (res : Resolution)
    → resolve cluster namespace rule label ≡ ok res
    → res.service_found ≡ true
    → ListsAddresses cluster namespace
    → All IsReachable res.versions
resolve-IsReachable cluster namespace rule label res resolved shown =
    resolve-AllSets cluster namespace rule label res resolved shown IsReachable HasAddress
      IsReachable-kept (inr refl) (new-AllReachable rule.versions)
