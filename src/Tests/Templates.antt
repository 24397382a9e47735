-- ===== src/Tests/Templates.antt =====
-- Runs of `render` of hack/render-skeleton.py, and the theorem about it at a concrete text.
use jenkins_to_actions_migra.Prelude.{◌≡◌, refl, codes, [], ◌∷◌, ◌++◌}
use jenkins_to_actions_migra.Tests.{ascii}
use jenkins_to_actions_migra.Skeleton.{render, render_placeholders}
use jenkins_to_actions_migra.Skeleton.Quotes.{doubled}
use jenkins_to_actions_migra.Skeleton.Literal.{render-literal}
use jenkins_to_actions_migra.Python.{ok, err, raises}
use jenkins_to_actions_migra.Skeleton.Tree.{Files, main, rendered}
use jenkins_to_actions_migra.Skeleton.Plain.{render_lem}

-- A value, an unknown value and a literal with a quote in it.
template :
    render (codes "${{ values.name }}/${{values.x}} ${{ 'it''s' }}")
    ≡ codes "example-svc/placeholder it's"
unfolding render
template = refl

render_lem_example :
    (render (codes "go 1.22") ≡ codes "go 1.22")
    × (render_placeholders (codes "go 1.22") ≡ codes "go 1.22")
render_lem_example =
    render_lem (codes "go 1.22") (refl, (refl, (refl, (refl, (refl, (refl, (refl, tt)))))))

render-literal_example :
    render (codes "${{ '" ++ doubled (codes "it's") ++ codes "' }}") ≡ codes "it's"
render-literal_example = render-literal (codes "it's") (refl, (refl, (refl, (refl, tt))))

abbrev skeleton : Files
skeleton =
    (codes "b/${{values.name}}.go", codes "package ${{ values.name }}")
    ∷ (codes "a.md", codes "go")
    ∷ []

-- Names and texts are rendered, in the order of the paths.
rendered_tree :
    main (codes "render" ∷ codes "s/" ∷ codes "out" ∷ []) skeleton
    ≡ ok (
      0,
      codes "rendered s -> out\n",
      (codes "a.md", codes "go") ∷ (codes "b/example-svc.go", codes "package example-svc") ∷ [],
    )
unfolding main
rendered_tree = refl

-- A file whose name renders to that of a directory raises.
rendered_clash : rendered ((codes "a/b", []) ∷ (codes "${{ 'a' }}", []) ∷ []) ≡ err raises
unfolding rendered
rendered_clash = refl
