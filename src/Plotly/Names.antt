-- ===== src/Plotly/Names.antt =====
-- The Plotly name of an event tells the event: `getPlotlyEventName` over `eventNames`, of
-- src/components/showcases/factory.js.
use tgvejs.Prelude.{
  String, ◌≡◌, refl, Bool, true, not, ◌&&◌, ◌||◌, List, [], ◌∷◌, text_eq, text_eq_iff, str_eq,
  eq_iff, In, inl, inr, ap, arith,
}
use tgvejs.Plotly.{event_names, plotly_name}

-- `e` is the only one of the list with its name.
apart : String → List String → Bool
apart e [] = true
apart e (f ∷ fs) = (str_eq e f || not (text_eq (plotly_name e) (plotly_name f))) && apart e fs

all_apart : List String → List String → Bool
all_apart [] fs = true
all_apart (e ∷ es) fs = apart e fs && all_apart es fs

names_apart : all_apart event_names event_names ≡ true
unfolding all_apart apart plotly_name
names_apart = refl

apart-In :
    (e f : String) (fs : List String)
    → apart e fs ≡ true
    → In f fs
    → text_eq (plotly_name e) (plotly_name f) ≡ true
    → e ≡ f
unfolding apart
apart-In e f [] h m t = elim m [ ]
apart-In e f (g ∷ gs) h (inl p) t = ground (arith, eq_iff e g, ap plotly_name p)
apart-In e f (g ∷ gs) h (inr m) t = apart-In e f gs (ground arith) m t

all_apart-In :
    (e : String) (es fs : List String) → all_apart es fs ≡ true → In e es → apart e fs ≡ true
unfolding all_apart
all_apart-In e [] fs h m = elim m [ ]
all_apart-In e (g ∷ gs) fs h (inl p) = ground (arith, ap (λ u. apart u fs) p)
all_apart-In e (g ∷ gs) fs h (inr m) = all_apart-In e gs fs (ground arith) m

-- Different events have different Plotly names.
plotly_name-injective :
    (e f : String)
    → In e event_names
    → In f event_names
    → text_eq (plotly_name e) (plotly_name f) ≡ true
    → e ≡ f
plotly_name-injective e f m n t =
    apart-In e f event_names (all_apart-In e event_names event_names names_apart m) n t

pub plotly_name_test :
    (e f : String)
    → In e event_names
    → In f event_names
    → text_eq (plotly_name e) (plotly_name f) ≡ str_eq e f
plotly_name_test e f m n = ground (
  arith,
  plotly_name-injective e f m n,
  eq_iff e f,
  ap plotly_name {x = e} {y = f},
  text_eq_iff (plotly_name e) (plotly_name f),
)
