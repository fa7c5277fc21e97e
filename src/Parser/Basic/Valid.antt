-- ===== src/Parser/Basic/Valid.antt =====
-- What `validateBasic` needs of a file, part by part.
use protocompile.Prelude.{◌≡◌, refl, ◌↔◌, none}
use protocompile.Diagnostic.{file_options}
use protocompile.Descriptor.{FileDescriptorProto}
use protocompile.Reporter.{Handler, error}
use protocompile.Reporter.Check.{Accepts, run, done, >>-Accepts, ◌>>◌}
use protocompile.Reporter.Abort.{error-run}
use protocompile.Walk.{descriptor_protos}
use protocompile.Walk.Visits.{EachDescriptor, descriptor_protos-EachDescriptor}
use protocompile.Parser.Names.{validate_no_features}
use protocompile.Parser.Names.Found.{FeaturesAllowed, validate_no_features-Accepts}
use protocompile.Parser.Imports.{validate_imports, validate_export_local}
use protocompile.Parser.Imports.Valid.{
  ImportsValid, validate_imports-Accepts, VisibilityValid, validate_export_local-Accepts,
}
use protocompile.Parser.Basic.{syntax_of, no_span, validate_element, validate_basic}

-- The imports and the visibility keywords keep the rules that the code checks, the options hold
-- features only in editions, and each descriptor of the file is accepted under its full name.
pub record IsValidFile (fd : FileDescriptorProto) : Type 0 where
  pub imports : ImportsValid fd.ast
  pub visibility : VisibilityValid fd.ast
  pub features : FeaturesAllowed (syntax_of fd.syntax) fd.options
  pub elements :
      EachDescriptor (λ name el. Accepts (validate_element (syntax_of fd.syntax) name el)) fd

validate_basic-IsValidFile :
    (fd : FileDescriptorProto) → Accepts (validate_basic fd) ↔ IsValidFile fd
unfolding validate_basic
validate_basic-IsValidFile fd =
    let syntax = syntax_of fd.syntax in
    let c1 = validate_imports fd.ast in
    let c2 = validate_export_local fd.ast in
    let c3 = validate_no_features syntax file_options fd.options no_span in
    let c4 = descriptor_protos done (λ a b. a >> b) (validate_element syntax) fd in
    let e1 = >>-Accepts c1 (c2 >> (c3 >> c4)) in
    let e2 = >>-Accepts c2 (c3 >> c4) in
    let e3 = >>-Accepts c3 c4 in
    let (im, im') = validate_imports-Accepts fd.ast in
    let (vi, vi') = validate_export_local-Accepts fd.ast in
    let (nf, nf') = validate_no_features-Accepts syntax file_options fd.options no_span in
    let (el, el') =
      descriptor_protos-EachDescriptor done (λ a b. a >> b) (validate_element syntax)
        (λ c. Accepts c) refl (λ a b. >>-Accepts a b) fd in
    (
      λ h.
          let h2 = (e1.0 h).1 in
          let h3 = (e2.0 h2).1 in
          record {
            imports = im (e1.0 h).0;
            visibility = vi (e2.0 h2).0;
            features = nf (e3.0 h3).0;
            elements = el (e3.0 h3).1;
          },
      λ v. e1.1 (im' v.imports, e2.1 (vi' v.visibility, e3.1 (nf' v.features, el' v.elements))),
    )

-- On a handler whose `Error` is nil, `Error` is nil after `validateBasic` exactly when the file's
-- imports and features keep their rules, outside edition 2024 no message or enum that stands in the
-- file or in messages only has a visibility keyword, and each descriptor of the file is accepted
-- under the full name that it has by the package, the messages and the services around it.
pub error-validate_basic :
    {R : Type 0} (h : Handler R) (fd : FileDescriptorProto)
    → error h ≡ none
    → (error (run h (validate_basic fd).reports).1 ≡ none) ↔ IsValidFile fd
error-validate_basic h fd e =
    let (to, from) = error-run h (validate_basic fd).reports e in
    let (to', from') = validate_basic-IsValidFile fd in (λ p. to' (to p), λ p. from (from' p))
