-- ===== src/Client/Routes.antt =====
-- What a server makes of the requests of the typed client,
-- pkg/client/clientset/versioned/typed/cloudschedulersource/v1alpha1/cloudschedulersource.go, by the
-- conventions of the Kubernetes API: the verb, the name and the parameters tell the operation.
use csr.Base.{String, true, false, ◌≡◌, refl, ap, sym, ◌∙◌, Option, none, some, List, [], ◌∷◌}
use csr.Api.{CloudSchedulerSource}
use csr.Client.{
  Rest, ListOptions, Verb, get_verb, post, put, delete_verb, patch_verb, Params, get_params,
  list_params, Body, source_body, delete_body, patch_body, Call, namespace, resource, name,
  sub_resource, versioned_params, body, Request, CloudSchedulerSources, resource_name, get, list,
  watch, create, update, delete, delete_collection, patch,
}

pub data Operation (R : Rest) : Type 0 where
  getting : String → R.GetOptions → Operation R
  listing : R.Options → Operation R
  watching : R.Options → Operation R
  creating : CloudSchedulerSource → Operation R
  updating : String → CloudSchedulerSource → Operation R
  deleting : String → R.DeleteOptions → Operation R
  deleting_all : R.DeleteOptions → ListOptions R → Operation R
  patching : String → List String → R.PatchType → String → Operation R

-- The parts that the builder's calls have set, each at most once.
pub record Parts (R : Rest) : Type 0 where
  pub ns : String
  pub resource : String
  pub name : Option String
  pub subresources : List String
  pub params : Option (Params R)
  pub body : Option (Body R)

module _ {R : Rest} where
  abbrev no_parts : Parts R
  no_parts = record {
    ns = "";
    resource = "";
    name = none;
    subresources = [];
    params = none;
    body = none;
  }

  abbrev parts_of : List (Call R) → Parts R
  parts_of [] = no_parts
  parts_of (namespace ns ∷ calls) = record (parts_of calls) { ns = ns }
  parts_of (resource r ∷ calls) = record (parts_of calls) { resource = r }
  parts_of (name n ∷ calls) = record (parts_of calls) { name = some n }
  parts_of (sub_resource s ∷ calls) = record (parts_of calls) { subresources = s }
  parts_of (versioned_params p ∷ calls) = record (parts_of calls) { params = some p }
  parts_of (body b ∷ calls) = record (parts_of calls) { body = some b }

  abbrev list_or_watch : ListOptions R → Operation R
  list_or_watch opts = elim opts.watch [
    | true ↦ watching opts.options
    | false ↦ listing opts.options
  ]

  abbrev operation :
      Verb R
      → Option String
      → List String
      → Option (Params R)
      → Option (Body R)
      → Option (Operation R)
  operation get_verb (some n) [] (some (get_params o)) none = some (getting n o)
  operation get_verb none [] (some (list_params o)) none = some (list_or_watch o)
  operation post none [] none (some (source_body s)) = some (creating s)
  operation put (some n) [] none (some (source_body s)) = some (updating n s)
  operation delete_verb (some n) [] none (some (delete_body o)) = some (deleting n o)
  operation delete_verb none [] (some (list_params l)) (some (delete_body o)) =
      some (deleting_all o l)
  operation (patch_verb t) (some n) s none (some (patch_body b)) = some (patching n s t b)
  operation _ _ _ _ _ = none

  -- The namespace, the resource and the operation of a request, if it is one.
  unfoldable pub route : Request R → String × (String × Option (Operation R))
  route request =
      let p = parts_of request.calls in
      (p.ns, (p.resource, operation request.verb p.name p.subresources p.params p.body))

  -- The request of the method for an operation.
  abbrev pub perform : CloudSchedulerSources R → Operation R → Request R
  perform c (getting n o) = (get c n o).1
  perform c (listing o) = (list c (record { options = o; watch = false })).1
  perform c (watching o) = (watch c (record { options = o; watch = false })).1
  perform c (creating s) = (create c s).1
  perform c (updating n s) = (update c s).1
  perform c (deleting n o) = (delete c n o).1
  perform c (deleting_all o l) = (delete_collection c o l).1
  perform c (patching n s t b) = (patch c n t b s).1

  -- An update goes to the name of the object that it sends; there is no method for any other.
  abbrev pub IsCallable : Operation R → Type 0
  IsCallable (getting _ _) = Unit
  IsCallable (listing _) = Unit
  IsCallable (watching _) = Unit
  IsCallable (creating _) = Unit
  IsCallable (updating n s) = n ≡ s.object_meta.name
  IsCallable (deleting _ _) = Unit
  IsCallable (deleting_all _ _) = Unit
  IsCallable (patching _ _ _ _) = Unit

  -- The server reads every method's request back as the operation that was asked for, in the
  -- client's namespace and on the one resource.
  pub route-perform :
      (c : CloudSchedulerSources R) (op : Operation R)
      → IsCallable op
      → route (perform c op) ≡ (c.ns, (resource_name, some op))
  unfolding route get list watch create update delete delete_collection patch
  route-perform c (getting n o) u = refl
  route-perform c (listing o) u = refl
  route-perform c (watching o) u = refl
  route-perform c (creating s) u = refl
  route-perform c (updating n s) u = ap (λ x. (c.ns, (resource_name, some (updating x s)))) (sym u)
  route-perform c (deleting n o) u = refl
  route-perform c (deleting_all o l) u = refl
  route-perform c (patching n s t b) u = refl

  -- So that no two operations send the same request.
  pub perform-injective :
      (c d : CloudSchedulerSources R) (op op' : Operation R)
      → IsCallable op
      → IsCallable op'
      → perform c op ≡ perform d op'
      → (c.ns ≡ d.ns) × (op ≡ op')
  perform-injective c d op op' u v p =
      let q = sym (route-perform c op u) ∙ ap route p ∙ route-perform d op' v in
      (ap (λ x. x.0) q, cc (ap (λ x. x.1.1) q))
