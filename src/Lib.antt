-- ===== src/Lib.antt =====
-- Verification of tgvejs, a React application that shows geographic data on a map, filters it and
-- draws charts of it.
--
-- The program. A data set comes in as GeoJSON, is joined to a geography by a shared column
-- (src/utils/geojsonutils.js), is filtered by what the user selects (src/home/util.js) and is shown as
-- layers and as charts (src/utils/utils.js). Charts are drawn by a component around Plotly
-- (src/components/showcases/factory.js). The application takes its parameters from the query string,
-- from props, from settings in the page and from the environment (src/utils/api.js).
--
-- The files.
-- - Prelude: names of the libraries, Boolean tests, lists measured by native numbers.
-- - Js: JavaScript values. Js/Dict: plain objects; Js/Collection: Set; Js/Counter: a Map of counters;
--   Js/Sort: Array.sort; Js/Text: String.split.
-- - JsUtils: src/utils/JSUtils.js, one definition per function. JsUtils/Laws: what the conversions give.
-- - Geojson: features, `sfType`. Geojson/Values: `getPropertyValues` and `getKeyColumns`;
--   Geojson/KeyColumns: what `getKeyColumns` returns; Geojson/Join: `setGeojsonProps`;
--   Geojson/Join/Laws: what the join is; Geojson/Counts: `propertyCountByProperty`, with its groups in Geojson/Groups; Geojson/Slots:
--   `propertyCount`, with what it counts in Geojson/Slots/Laws; Geojson/Plots:
--   `describeFeatureVariables`, `coordsAsXY`, `isColumnAllNumeric` and `arrayPlotProps`.
-- - Utils/Xy: `xyObjectByProperty`, with what it draws in Utils/Xy/Bars; Utils/Domain:
--   `generateDomain`, with what it returns in Utils/Domain/Laws; Utils/Numbers: `getMax`, `getMin`,
--   `getBbx`, `convertRange`, `isArrayNumeric`, `sortNumericArray`, `arrayCardinality`,
--   `uniqueValuePercentage`, `suggestUIforNumber`; Utils/Extremes: what `getMax` and `getMin` find;
--   Utils/Text: `humanize`, `shortenName`, `firstLastNCharacters`; all of src/utils/utils.js.
-- - Home/Filter: `filterGeojson` of src/home/util.js; Home/Filter/Laws: what passes its
--   tests; Home/Filter/Outcomes: when it throws, what it returns, and what a second call does.
-- - Home/Loading: `_initDataState`, `_fetchAndUpdateState`, `_updateStateAndLayers` and `_initWithGeojson`
--   of src/home/index.js, with `fetchData` of src/utils/utils.js; Home/Loading/Runs: runs of it, in which
--   the answers to its requests come in any order; Home/Loading/Quiet: the alerts of such runs.
-- - Home/Steps: the other steps of src/home/index.js: `_callGenerateLayer`, `_urlCallback`,
--   `_renderTooltip`, `_updateHistory` and the callbacks of `render`, on the state that `generateLayer` reads; Home/Steps/Fits and
--   Home/Steps/Runs: what every state keeps. Home/View: `initViewState` and `getViewPort` of
--   src/home/util.js and `getViewportParams` of src/utils/utils.js; Home/View/Laws: what they give.
-- - Input/DataInput: the form of src/components/input/DataInput.jsx; Input/DataInput/Runs and
--   Input/DataInput/Pairs: what it sends.
-- - Drag: src/utils/draggable.js, with the runs of its throttle in Drag/Laws. Icons: the names, sizes and
--   clusters of src/icon-cluster-layer.js.
-- - Plots: `arrayOfYearAndProperty` of src/components/showcases/plots.jsx, with what it shows in
--   Plots/Years; Plots/Charts: the charts of that file. Sidebar: what the choices in
--   src/components/Variables.jsx and src/components/MultiSelect.jsx and the clicks in
--   src/components/decksidebar/Charts.jsx do to the selection; Sidebar/Runs and Sidebar/Columns: what
--   they keep to. AddVis: the charts of src/components/AddVIS.jsx; AddVis/Throws: what its buttons do.
--   Tooltip: src/components/tooltip/utils.js; Tooltip/Empty: when it has a plot.
-- - Layers: options and properties, and the functions among them; Layers/Settings:
--   src/components/settings/settingsUtils.js, with what its sliders keep to in Layers/Settings/Laws;
--   Layers/Deck: `suggestDeckLayer` and `generateDeckLayer` of src/utils/utils.js, with what is set in a
--   layer in Layers/Deck/Laws and Layers/Deck/Result; Layers/Options: `_generateOptions` of
--   src/home/util.js, with when it throws in Layers/Options/Laws; Layers/State and Layers/Generate:
--   `generateLayer` of src/home/util.js; Layers/Generate/Laws, Draws, Names and Outcomes: what it draws.
-- - Plotly: the component of src/components/showcases/factory.js with its life cycle; Plotly/Names: the
--   names of its events; Plotly/Sync: the event handlers; Plotly/Lifecycle: the listeners, and unmounting.
-- - Api/Names: `apiSplit` and `apiToReactApp`; Api/Select: `jsonStr`, `keySetObject` and
--   `jsonFromKeySetObject`; Api/Params: `params`; Api/Params/Precedence: which source comes first;
--   Api/Changed: `hasAPIChanged`, with `areEqualFeatureArrays` of src/utils/geojsonutils.js; all else of
--   src/utils/api.js.
-- - Color: src/utils/color.js; Color/Laws: its tables, the bytes of colours, values without a colour.
-- - Samples and Tests: concrete data, and the theorems at it.
--
-- State and operations. A function of the source is a function of the same name in snake case. An
-- array is a list, an object an association list in the order of its first writes, a Set the list of
-- its elements, a Map of counters the list of its entries. A loop that writes to accumulators is a
-- recursion with the accumulators as an argument. A function that may throw returns an option, `none`
-- for the TypeError; `none` also stands for null or undefined where a function returns it, which the
-- comments say. The Plotly component is the record `Component`: the element, the fields of the class,
-- the listeners of the window, and the callbacks that were called. The Home component is the record
-- `State` of Home/Loading: what concerns the loading, and the requests that are on their way. The side
-- bar is the record `Side`: the selection that it shares with the Home component, that of Charts where
-- it is another one, and what it told.
--
-- Parameters. `Floats` are doubles, with one zero and one NaN: their order and arithmetic, and the
-- functions of the language that read and print them; the laws that it has are those of equality and
-- of the two constants. `Emitter` is the element that Plotly makes: a count of registrations, with
-- what `on` and `removeListener` do to it. `Packages` are `booleanContains` of turf, which throws for
-- the geometries that it does not support, and `difference` of underscore. `isURL`, a long regular
-- expression, is any test of texts. `Plotly.react` and `JSON.parse` are functions that the definitions
-- take, as are `toLocaleLowerCase` and `ascending` of d3-array; `Palette` is what colours take from
-- d3-scale-chromatic. `Luxon` says which texts are dates. A reference to an object, an array or a date
-- inside a value stays a reference that the functions do not look behind, but for `hasAPIChanged`,
-- which takes a `Store` of what stands there.
--
-- Bounds. The only fuel is that of `words`, the loop of `apiToReactApp`: one round more than the text
-- has code units, which is always enough, as the theorem about it shows. All other loops go over a list.
--
-- Not modelled. Features without an object of properties; the order of keys that look like array
-- indices; letters beyond ASCII in the names of parameters and in titles. Rendering, the DOM, deck.gl
-- and mapbox, and what a fetch does. Of src/home/index.js `componentDidUpdate`; src/utils/legend.js; the
-- components of src/components that are not named above, most of which only render.
pub mod Prelude
pub mod Js
pub mod Input
pub mod JsUtils
pub mod Layers
pub mod Geojson
pub mod Utils
pub mod Home
pub mod Drag
pub mod Icons
pub mod Plots
pub mod Tooltip
pub mod AddVis
pub mod Sidebar
pub mod Plotly
pub mod Api
pub mod Samples
pub mod Tests
pub mod Color
